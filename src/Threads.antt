-- ===== src/Threads.antt =====
-- The `run_thread` functions of all servers: src/tokio.rs, src/mcp.rs, src/smol.rs, src/tokio_uring.rs,
-- src/monoio.rs, src/glommio.rs and src/compio.rs, and how src/main.rs starts its threads. Parameters
-- are: creating a listener for an address (Startup.Listeners), making a runtime's listener of it (which
-- can fail with some runtimes and not with others),
-- building the runtime, the number of processor cores that can be found out, the port of a listener, which may not be found out, which ports have counters, and
-- what arrives at the listeners of a thread, each arrival at one of them.
pub mod Collect
pub mod Outcomes
pub mod Registered
mod Tests
use statico.Prelude.{
  ℕ, zero, suc, Bool, true, false, List, [], ◌∷◌, ◌++◌, map, Option, none, some, ◌⊎◌, inl, inr,
  get_elem?,
}
use statico.Accepting.{
  Incoming, accepted, accept_failed, all_closed, Effect, LoopEnd, tokio_srv, mcp_srv_with_tls,
  tokio_uring_srv, monoio_srv, smol_srv, glommio_srv, compio_srv,
}
use statico.Startup.{SocketAddr, Server, mcp_server, runtime_server}
use statico.Startup.Arguments.{Runtime, tokio, tokio_uring, monoio, glommio, smol, compio}

-- What the merged streams of a thread's listeners give.
pub data Arrival (L S : Type 0) : Type 0 where
  came : L → ℕ → S → Arrival L S
  failed : Arrival L S
  closed : Arrival L S

pub data ThreadError (E : Type 0) : Type 0 where
  listener_error : E → ThreadError E
  runtime_error : E → ThreadError E
  no_affinity : ThreadError E

-- A thread returns an error; or it logs one and returns; or it panics; or it accepts on its listeners.
pub data Thread (E L S : Type 0) : Type 0 where
  refused : ThreadError E → Thread E L S
  logged : Thread E L S
  panicked : Thread E L S
  accepting : List (L × ℕ) → List (Effect S) × LoopEnd → Thread E L S

-- A loop over the addresses that ends at the first that fails.
abbrev pub try_collect {ℓ κ μ} :
    {X : Type ℓ} {A : Type κ} {B : Type μ} → (A → X ⊎ B) → List A → X ⊎ List B
try_collect f [] = inr []
try_collect f (a ∷ rest) = elim (f a) [
  | inl x ↦ inl x
  | inr b ↦ elim (try_collect f rest) [ inl x ↦ inl x | inr bs ↦ inr (b ∷ bs) ]
]

-- The stream that is unfolded from a listener gives its port with every stream.
abbrev pub with_port : {L S : Type 0} → Arrival L S → Incoming S
with_port (came listener port stream) = accepted stream port
with_port failed = accept_failed
with_port closed = all_closed

abbrev pub left_as {ℓ κ μ} : {X : Type ℓ} {Y : Type κ} {B : Type μ} → (X → Y) → X ⊎ B → Y ⊎ B
left_as f (inl x) = inl (f x)
left_as f (inr b) = inr b

module _ {E N L S : Type 0} (create_listener : SocketAddr → E ⊎ N) (from_std : N → E ⊎ L)
    (wrap : N → L) (build : Option E) (cores : Option ℕ) (local_port : L → Option ℕ)
    (arrivals : List (L × ℕ) → List (Arrival L S)) (meter : Bool) (has_counters : ℕ → Bool)
    (set_nodelay : S → Bool) (tcp_nodelay : Bool) where
  -- `l.local_addr().unwrap().port()`
  abbrev pub port_of_listener : L → Thread E L S ⊎ (L × ℕ)
  port_of_listener listener = elim (local_port listener) [
    | none ↦ inl panicked
    | some port ↦ inr (listener, port)
  ]

  -- The ports of the listeners, and the loop over what arrives at them.
  abbrev pub accept_with : (List (Incoming S) → List (Effect S) × LoopEnd) → List L → Thread E L S
  accept_with srv listeners = elim (try_collect port_of_listener listeners) [
    | inl thread ↦ thread
    | inr with_ports ↦ accepting with_ports (srv (map with_port (arrivals with_ports)))
  ]

  -- `collect`, `build()?` and the conversion, as in tokio.rs and mcp.rs.
  unfoldable pub listen_and_build :
      (List (Incoming S) → List (Effect S) × LoopEnd) → List SocketAddr → Thread E L S
  listen_and_build srv addrs = elim (try_collect create_listener addrs) [
    | inl e ↦ refused (listener_error e)
    | inr std_listeners ↦ elim build [
      | some e ↦ refused (runtime_error e)
      | none ↦ elim (try_collect from_std std_listeners) [
        | inl e ↦ refused (listener_error e)
        | inr listeners ↦ accept_with srv listeners
      ]
    ]
  ]

  unfoldable pub run_tokio : List SocketAddr → Thread E L S
  run_tokio addrs = listen_and_build (tokio_srv meter has_counters) addrs

  unfoldable pub run_mcp : List SocketAddr → Thread E L S
  run_mcp addrs = listen_and_build (mcp_srv_with_tls meter has_counters) addrs

  -- A listener and its conversion, each of which ends the loop over the addresses if it fails.
  abbrev pub listener_of : {X : Type 0} → (E → X) → (E → X) → SocketAddr → X ⊎ L
  listener_of on_create on_convert addr = elim (create_listener addr) [
    | inl e ↦ inl (on_create e)
    | inr std_listener ↦ left_as on_convert (from_std std_listener)
  ]

  abbrev pub wrapped_of : SocketAddr → Thread E L S ⊎ L
  wrapped_of addr = elim (create_listener addr) [
    | inl e ↦ inl logged
    | inr std_listener ↦ inr (wrap std_listener)
  ]

  abbrev pub serve_on :
      (List (Incoming S) → List (Effect S) × LoopEnd) → Thread E L S ⊎ List L → Thread E L S
  serve_on srv (inl thread) = thread
  serve_on srv (inr listeners) = accept_with srv listeners

  unfoldable pub run_smol : List SocketAddr → Thread E L S
  run_smol addrs = serve_on (smol_srv meter has_counters set_nodelay tcp_nodelay) (
      try_collect (listener_of (λ e. refused (listener_error e)) (λ e. refused (listener_error e)))
        addrs)

  -- The conversion of tokio-uring does not fail; its library unwraps the runtime that it builds.
  unfoldable pub run_tokio_uring : List SocketAddr → Thread E L S
  run_tokio_uring addrs = elim build [
    | some e ↦ panicked
    | none ↦ serve_on tokio_uring_srv (try_collect wrapped_of addrs)
  ]

  -- `unwrap`, before any listener is created.
  unfoldable pub run_monoio : List SocketAddr → Thread E L S
  run_monoio addrs = elim build [
    | some e ↦ panicked
    | none ↦ serve_on monoio_srv (try_collect (listener_of (λ e. logged) (λ e. panicked)) addrs)
  ]

  -- `id % num_cpus` panics on no core at all.
  unfoldable pub run_glommio : List SocketAddr → Thread E L S
  run_glommio addrs = elim cores [
    | none ↦ refused no_affinity
    | some zero ↦ panicked
    | some (suc n) ↦ elim (try_collect create_listener addrs) [
      | inl e ↦ refused (listener_error e)
      | inr raw_fds ↦ elim build [
        | some e ↦ refused (runtime_error e)
        | none ↦ accept_with (glommio_srv set_nodelay tcp_nodelay) (map wrap raw_fds)
      ]
    ]
  ]

  unfoldable pub run_compio : List SocketAddr → Thread E L S
  run_compio addrs = elim build [
    | some e ↦ refused (runtime_error e)
    | none ↦
        serve_on (compio_srv set_nodelay tcp_nodelay)
          (try_collect (listener_of (λ e. logged) (λ e. logged)) addrs)
  ]

  -- `run_thread` of src/main.rs, by the server that it chooses.
  unfoldable pub run_server : Server → List SocketAddr → Thread E L S
  run_server mcp_server addrs = run_mcp addrs
  run_server (runtime_server tokio) addrs = run_tokio addrs
  run_server (runtime_server tokio_uring) addrs = run_tokio_uring addrs
  run_server (runtime_server monoio) addrs = run_monoio addrs
  run_server (runtime_server glommio) addrs = run_glommio addrs
  run_server (runtime_server smol) addrs = run_smol addrs
  run_server (runtime_server compio) addrs = run_compio addrs

-- The loop of `main` that starts thread after thread, from `id` on, each with its own addresses;
-- an index past their end stops the program.
unfoldable pub spawn_threads : {A : Type 0} → ℕ → ℕ → List A → Option (List A)
spawn_threads zero id addrs = some []
spawn_threads (suc left) id addrs = elim (get_elem? addrs id) [
  | none ↦ none
  | some addr ↦ elim (spawn_threads left (suc id) addrs) [
    | none ↦ none
    | some handles ↦ some (addr ∷ handles)
  ]
]
