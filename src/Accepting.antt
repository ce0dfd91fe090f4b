-- ===== src/Accepting.antt =====
-- The loops that accept connections (src/tokio.rs, src/mcp.rs, src/smol.rs, src/tokio_uring.rs,
-- src/monoio.rs, src/glommio.rs and src/compio.rs), and the task of one connection over hyper.
-- What the merged listeners give is a list: a stream with the port of its listener, a failed
-- accept, or the end of all listeners. Which ports have counters (Counters), the TLS handshake,
-- hyper's connections and the option of a stream are parameters: whether they succeed.
pub mod Loops
pub mod Tasks
mod Tests
use statico.Prelude.{
  ℕ, Bool, true, false, List, [], ◌∷◌, ◌++◌, Option, none, some, ◌⊎◌, inl, inr, if◌then◌else◌,
}
use statico.Counters.{finds_counters}

pub data Incoming (S : Type 0) : Type 0 where
  accepted : S → ℕ → Incoming S
  accept_failed : Incoming S
  all_closed : Incoming S

pub data Effect (S : Type 0) : Type 0 where
  spawned : S → ℕ → Effect S
  accept_error_logged all_closed_logged nodelay_error_logged : Effect S

-- A loop goes on, or it has ended with its listeners, or it has stopped its thread.
pub data LoopEnd : Type 0 where
  running ended panicked : LoopEnd

-- How the task of a connection ends; `true` is HTTP/2.
pub data TaskEnd : Type 0 where
  handshake_failed : TaskEnd
  served : TaskEnd
  serve_failed : Bool → TaskEnd

-- A loop over what the merged listeners give: what it does, and how it ends. The seven loops differ in
-- what they do with a stream before its task is spawned, in how they log a failed accept, and in the
-- ports that they can spawn a task for.
unfoldable pub accept_loop :
    {S : Type 0}
    → (S → List (Effect S))
    → List (Effect S)
    → (ℕ → Bool)
    → List (Incoming S)
    → List (Effect S) × LoopEnd
accept_loop prepare on_error spawns [] = ([], running)
accept_loop prepare on_error spawns (accepted stream port ∷ incoming) =
    let rest = accept_loop prepare on_error spawns incoming in
    if spawns port
    then (prepare stream ++ (spawned stream port ∷ rest.0), rest.1)
    else (prepare stream, panicked)
accept_loop prepare on_error spawns (accept_failed ∷ incoming) =
    let rest = accept_loop prepare on_error spawns incoming in (on_error ++ rest.0, rest.1)
accept_loop prepare on_error spawns (all_closed ∷ incoming) = (all_closed_logged ∷ [], ended)

-- Nothing is done with the stream, as in tokio.rs, mcp.rs, tokio_uring.rs and monoio.rs.
abbrev pub no_option : {S : Type 0} → S → List (Effect S)
no_option stream = []

-- TCP_NODELAY is set if asked, as in smol.rs, glommio.rs and compio.rs; a failure to is only logged.
abbrev pub nodelay_option : {S : Type 0} → (S → Bool) → Bool → S → List (Effect S)
nodelay_option set_nodelay tcp_nodelay stream =
    if tcp_nodelay then (if set_nodelay stream then [] else nodelay_error_logged ∷ []) else []

-- A task is spawned whatever the port, as in the loops of the io_uring runtimes: their tasks look up
-- the counters themselves (Connections).
abbrev pub any_port : ℕ → Bool
any_port port = true

-- The loops that look up the counters of the port before they spawn a task.
module _ {S : Type 0} (meter : Bool) (has_counters : ℕ → Bool) where
  unfoldable pub tokio_srv : List (Incoming S) → List (Effect S) × LoopEnd
  tokio_srv incoming =
      accept_loop no_option (accept_error_logged ∷ []) (finds_counters meter has_counters) incoming

  unfoldable pub mcp_srv_with_tls : List (Incoming S) → List (Effect S) × LoopEnd
  mcp_srv_with_tls incoming =
      accept_loop no_option (accept_error_logged ∷ []) (finds_counters meter has_counters) incoming

  unfoldable pub smol_srv : (S → Bool) → Bool → List (Incoming S) → List (Effect S) × LoopEnd
  smol_srv set_nodelay tcp_nodelay incoming =
      accept_loop (nodelay_option set_nodelay tcp_nodelay) (accept_error_logged ∷ [])
        (finds_counters meter has_counters) incoming

-- The stream of a listener logs the error that the loop then logs again.
unfoldable pub tokio_uring_srv : {S : Type 0} → List (Incoming S) → List (Effect S) × LoopEnd
tokio_uring_srv incoming =
    accept_loop no_option (accept_error_logged ∷ (accept_error_logged ∷ [])) any_port incoming

unfoldable pub monoio_srv : {S : Type 0} → List (Incoming S) → List (Effect S) × LoopEnd
monoio_srv incoming = accept_loop no_option (accept_error_logged ∷ []) any_port incoming

module _ {S : Type 0} (set_nodelay : S → Bool) (tcp_nodelay : Bool) where
  unfoldable pub glommio_srv : List (Incoming S) → List (Effect S) × LoopEnd
  glommio_srv incoming =
      accept_loop (nodelay_option set_nodelay tcp_nodelay) (accept_error_logged ∷ []) any_port
        incoming

  unfoldable pub compio_srv : List (Incoming S) → List (Effect S) × LoopEnd
  compio_srv incoming =
      accept_loop (nodelay_option set_nodelay tcp_nodelay) (accept_error_logged ∷ []) any_port
        incoming

-- The end of a task by the result of `serve_http`.
abbrev pub served_as : Bool → Bool → TaskEnd
served_as use_http2 true = served
served_as use_http2 false = serve_failed use_http2

-- `serve_http` of tokio.rs and mcp.rs: one of hyper's two connections.
unfoldable pub serve_http : {I : Type 0} → (I → Bool) → (I → Bool) → I → Bool → Bool
serve_http http2_connection http1_connection io use_http2 =
    if use_http2 then http2_connection io else http1_connection io

-- What a task does, in order: a handshake, and the start of one of hyper's connections on a stream.
pub data TaskStep (K S T : Type 0) : Type 0 where
  handshaken : K → S → TaskStep K S T
  started_http2 started_http1 : S ⊎ T → TaskStep K S T

-- The task of a connection of tokio.rs and mcp.rs: behind TLS if that is configured. Hyper's connections
-- are told what they serve on: the stream of the handshake, or the plain stream.
module _ {S T K : Type 0} (handshake : K → S → Option T)
    (http2_connection http1_connection : S ⊎ T → Bool) where
  -- `serve_http` as a task awaits it.
  unfoldable pub serve_step : S ⊎ T → Bool → List (TaskStep K S T) × TaskEnd
  serve_step io use_http2 = (
    (if use_http2 then started_http2 io else started_http1 io) ∷ [],
    served_as use_http2 (serve_http http2_connection http1_connection io use_http2),
  )

  unfoldable pub connection_task : Option K → Bool → S → List (TaskStep K S T) × TaskEnd
  connection_task none use_http2 tcp_stream = serve_step (inl tcp_stream) use_http2
  connection_task (some server_config) use_http2 tcp_stream =
      elim (handshake server_config tcp_stream) [
        | none ↦ (handshaken server_config tcp_stream ∷ [], handshake_failed)
        | some tls_stream ↦
            let served = serve_step (inr tls_stream) use_http2 in
            (handshaken server_config tcp_stream ∷ served.0, served.1)
      ]
