-- ===== src/Threads/Registered.antt =====
-- The threads that `main` starts, and the counters of the ports at which connections arrive.
use statico.Prelude.{
  ℕ, zero, suc, ◌+◌, ◌<◌, Bool, true, ◌||◌, List, [], ◌∷◌, map, Option, some, ◌⊎◌, inl, inr, ◌≡◌,
  refl, sym, ap, ◌∙◌, subst, ◌==◌, get_elem?, length, drop, All, arith, Bytes, Bool-cases,
}
use statico.Counters.{PortCounters, init_port_counters, port_counters}
use statico.Counters.Keys.{is_elem}
use statico.Ports.Shares.{balance_ports-All}
use statico.Startup.{IpAddr, SocketAddr, Started, start}
use statico.Startup.Addresses.{port_of_addr, start-Keeps}
use statico.Startup.Headers.{Text}
use statico.Startup.Arguments.{Options}
use statico.Threads.{Arrival, came, failed, closed, spawn_threads}
use statico.Threads.Collect.{Mem}

get-drop :
    {A : Type 0} (addrs : List A) (id : ℕ)
    → id < length addrs
    → (a : A) × (get_elem? addrs id ≡ some a) × (drop id addrs ≡ a ∷ drop (suc id) addrs)
get-drop [] id h = absurd (omega arith)
get-drop (a ∷ addrs) zero h = (a, refl, refl)
get-drop (a ∷ addrs) (suc id) h = get-drop addrs id (omega arith)

drop_end : {A : Type 0} (addrs : List A) (id : ℕ) → id ≡ length addrs → drop id addrs ≡ []
drop_end [] zero h = refl
drop_end [] (suc id) h = refl
drop_end (a ∷ addrs) zero h = absurd (omega arith)
drop_end (a ∷ addrs) (suc id) h = drop_end addrs id (omega arith)

spawn_threads-drop :
    {A : Type 0} (left id : ℕ) (addrs : List A)
    → id + left ≡ length addrs
    → spawn_threads left id addrs ≡ some (drop id addrs)
unfolding spawn_threads
spawn_threads-drop zero id addrs h = ap some (sym (drop_end addrs id (omega arith)))
spawn_threads-drop (suc left) id addrs h =
    let here = get-drop addrs id (omega arith) in
    rw (spawn_threads, here.1, spawn_threads-drop left (suc id) addrs (omega arith), here.2) refl

All-map :
    {A B : Type 0} (P : B → Type 0) (Q : A → Type 0) (f : A → B) (xs : List A)
    → ((a : A) → Q a → P (f a))
    → All Q xs
    → All P (map f xs)
All-map P Q f [] h q = tt
All-map P Q f (x ∷ xs) h q = (h x q.0, All-map P Q f xs h q.1)

own_ports :
    (all xs : List ℕ)
    → ((p : ℕ) → is_elem p xs ≡ true → is_elem p all ≡ true)
    → All (λ p. is_elem p all ≡ true) xs
own_ports all [] h = tt
own_ports all (x ∷ xs) h = (
  h x (ground arith),
  own_ports all xs (λ p e. h p (elim (Bool-cases (p == x)) [
    | inl y ↦ ap (λ (b : Bool). b || is_elem p xs) y
    | inr n ↦ ap (λ (b : Bool). b || is_elem p xs) n ∙ e
  ])),
)

length-map-map :
    {A B : Type 0} (f : A → B) (xss : List (List A)) → length (map (map f) xss) ≡ length xss
length-map-map f [] = refl
length-map-map f (xs ∷ xss) = ap suc (length-map-map f xss)

-- The address has a port that was asked for.
abbrev pub IsAsked : List ℕ → SocketAddr → Type 0
IsAsked ports addr = is_elem (port_of_addr addr) ports ≡ true

module _ {E D T : Type 0} (parse_ip : Text → Option IpAddr) (read_file : Text → Option Bytes)
    (is_status : ℕ → Bool) (load_server_config : Text → Text → Bool → E ⊎ T) where
  -- When the options are accepted, `main` starts every thread that was asked for, none of them without
  -- its own list of addresses, and all their addresses have ports that were asked for.
  pub start-IsAsked :
      (opts : Options D) (started : Started T)
      → start parse_ip read_file is_status load_server_config opts ≡ some (inr started)
      → (spawn_threads opts.threads 0 started.addrs ≡ some started.addrs)
        × (length started.addrs ≡ opts.threads)
        × All (All (IsAsked opts.ports)) started.addrs
  start-IsAsked opts started h =
      let keeps = start-Keeps parse_ip read_file is_status load_server_config opts started h in
      let to_addr = keeps.2.0 in
      let shares =
        balance_ports-All (λ p. is_elem p opts.ports ≡ true) opts.ports opts.threads opts.bind_all
          keeps.0 keeps.1 (own_ports opts.ports opts.ports (λ p e. e)) in
      let size : length started.addrs ≡ opts.threads =
        ap length keeps.2.2 ∙ (length-map-map to_addr keeps.0 ∙ shares.0) in
      (
        spawn_threads-drop opts.threads 0 started.addrs (omega arith),
        size,
        subst (All (All (IsAsked opts.ports))) (sym keeps.2.2) (
            All-map (All (IsAsked opts.ports)) (All (λ p. is_elem p opts.ports ≡ true))
              (map to_addr) keeps.0
              (λ ps.
                All-map (IsAsked opts.ports) (λ p. is_elem p opts.ports ≡ true) to_addr ps
                  (λ p e. ap (λ q. is_elem q opts.ports) (keeps.2.1 p) ∙ e))
              shares.1),
      )

-- A stream that arrives came to one of the listeners, whose port it has.
abbrev pub IsOf : {L S : Type 0} → List (L × ℕ) → Arrival L S → Type 0
IsOf listeners (came listener port stream) = Mem (listener, port) listeners
IsOf listeners failed = Unit
IsOf listeners closed = Unit

module _ {E N L S M : Type 0} (create_listener : SocketAddr → E ⊎ N) (from_std : N → E ⊎ L)
    (wrap : N → L) (build : Option E) (cores : Option ℕ) (local_port : L → Option ℕ)
    (arrivals : List (L × ℕ) → List (Arrival L S)) (meter : Bool) (has_counters : ℕ → Bool)
    (set_nodelay : S → Bool) (tcp_nodelay : Bool) (fresh : M) (add : M → ℕ → M) where
  -- The counters of the port of the connection are found among those set up for the ports.
  abbrev pub IsCounted : List ℕ → ℕ → Type 0
  IsCounted ports port =
      (change : PortCounters M → PortCounters M)
      → (changed : List (ℕ × PortCounters M)) × (port_counters fresh add port change
            (init_port_counters fresh add ports [])
          ≡ some changed)
