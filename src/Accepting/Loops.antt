-- ===== src/Accepting/Loops.antt =====
-- Which connections the loops serve.
use statico.Prelude.{
  ℕ, Bool, true, false, List, [], ◌∷◌, ◌++◌, append-nil, ◌≡◌, refl, sym, ap, ◌∙◌, if◌then◌else◌,
  Bool-cases, inl, inr,
}
use statico.Counters.{finds_counters}
use statico.Accepting.{
  Incoming, accepted, accept_failed, all_closed, Effect, spawned, accept_error_logged,
  nodelay_error_logged, LoopEnd, running, ended, panicked, accept_loop, no_option, nodelay_option,
  any_port, tokio_srv, mcp_srv_with_tls, tokio_uring_srv, monoio_srv, smol_srv, glommio_srv,
  compio_srv,
}

-- The connections that a loop serves, among all that it does.
abbrev pub connections : {S : Type 0} → List (Effect S) → List (S × ℕ)
connections [] = []
connections (spawned stream port ∷ effects) = (stream, port) ∷ connections effects
connections (_ ∷ effects) = connections effects

-- The connections that come before the end of all listeners and before the first whose port no task
-- can be spawned for, with their ports, and which of the two has come.
abbrev pub arrived : {S : Type 0} → (ℕ → Bool) → List (Incoming S) → List (S × ℕ) × LoopEnd
arrived spawns [] = ([], running)
arrived spawns (accepted stream port ∷ incoming) =
    let rest = arrived spawns incoming in
    if spawns port then ((stream, port) ∷ rest.0, rest.1) else ([], panicked)
arrived spawns (accept_failed ∷ incoming) = arrived spawns incoming
arrived spawns (all_closed ∷ incoming) = ([], ended)

-- A loop spawns a task for each of these connections, in order, and ends as they do.
abbrev pub ServesArrived :
    {S : Type 0} → (ℕ → Bool) → List (Incoming S) → List (Effect S) × LoopEnd → Type 0
ServesArrived spawns incoming (effects, end) =
    (connections effects ≡ (arrived spawns incoming).0) × (end ≡ (arrived spawns incoming).1)

-- Effects that spawn no task.
abbrev pub SpawnsNothing : {S : Type 0} → List (Effect S) → Type 0
SpawnsNothing front =
    (effects : List (Effect _)) → connections (front ++ effects) ≡ connections effects

accept_loop-ServesArrived :
    {S : Type 0} (prepare : S → List (Effect S)) (on_error : List (Effect S)) (spawns : ℕ → Bool)
    → ((stream : S) → SpawnsNothing (prepare stream))
    → SpawnsNothing on_error
    → (incoming : List (Incoming S))
    → ServesArrived spawns incoming (accept_loop prepare on_error spawns incoming)
unfolding accept_loop
accept_loop-ServesArrived prepare on_error spawns p q [] = (refl, refl)
accept_loop-ServesArrived prepare on_error spawns p q (accepted stream port ∷ incoming) =
    let rest = accept_loop-ServesArrived prepare on_error spawns p q incoming in
    elim (Bool-cases (spawns port)) [
      | inl y ↦ rw (accept_loop, arrived, y) (p stream _ ∙ ap (◌∷◌ (stream, port)) rest.0, rest.1)
      | inr n ↦
          let nothing : connections (prepare stream) ≡ [] =
            ap connections (sym (append-nil (prepare stream))) ∙ p stream [] in
          rw (accept_loop, arrived, n) (nothing, refl)
    ]
accept_loop-ServesArrived prepare on_error spawns p q (accept_failed ∷ incoming) =
    let rest = accept_loop-ServesArrived prepare on_error spawns p q incoming in
    (q _ ∙ rest.0, rest.1)
accept_loop-ServesArrived prepare on_error spawns p q (all_closed ∷ incoming) = (refl, refl)

nodelay-SpawnsNothing :
    {S : Type 0} (tcp_nodelay set : Bool)
    → SpawnsNothing {S = S}
        (if tcp_nodelay then (if set then [] else nodelay_error_logged ∷ []) else [])
nodelay-SpawnsNothing true true effects = refl
nodelay-SpawnsNothing true false effects = refl
nodelay-SpawnsNothing false set effects = refl

module _ {S : Type 0} (meter : Bool) (has_counters : ℕ → Bool) (set_nodelay : S → Bool)
    (tcp_nodelay : Bool) (incoming : List (Incoming S)) where
  abbrev plain :
      (spawns : ℕ → Bool) (log : List (Effect S))
      → SpawnsNothing log
      → ServesArrived spawns incoming (accept_loop no_option log spawns incoming)
  plain spawns log q =
      accept_loop-ServesArrived no_option log spawns (λ stream effects. refl) q incoming

  abbrev delayless :
      (spawns : ℕ → Bool)
      → ServesArrived spawns incoming (
          accept_loop
            (nodelay_option set_nodelay tcp_nodelay)
            (accept_error_logged ∷ [])
            spawns
            incoming)
  delayless spawns =
      accept_loop-ServesArrived (nodelay_option set_nodelay tcp_nodelay) (accept_error_logged ∷ [])
        spawns (λ stream. nodelay-SpawnsNothing tcp_nodelay (set_nodelay stream)) (λ effects. refl)
        incoming

  abbrev pub found : ℕ → Bool
  found = finds_counters meter has_counters

  -- Whatever comes in, and whether TCP_NODELAY can be set or not, each of the seven loops spawns a task
  -- for every connection that is accepted before the end of all listeners, with its own port and in
  -- order, and ends exactly when that end comes: a failed accept stops none of them. The loops of
  -- tokio, of the MCP mock and of smol do so up to the first connection whose port they look up
  -- without success, which the meter has to be on for: there they stop their thread by a panic.
  pub loops-ServesArrived :
      ServesArrived found incoming (tokio_srv meter has_counters incoming)
      × ServesArrived found incoming (mcp_srv_with_tls meter has_counters incoming)
      × ServesArrived any_port incoming (tokio_uring_srv incoming)
      × ServesArrived any_port incoming (monoio_srv incoming)
      × ServesArrived found incoming (smol_srv meter has_counters set_nodelay tcp_nodelay incoming)
      × ServesArrived any_port incoming (glommio_srv set_nodelay tcp_nodelay incoming)
      × ServesArrived any_port incoming (compio_srv set_nodelay tcp_nodelay incoming)
  unfolding tokio_srv mcp_srv_with_tls tokio_uring_srv monoio_srv smol_srv glommio_srv compio_srv
  loops-ServesArrived =
      let looked_up = plain found (accept_error_logged ∷ []) (λ effects. refl) in
      (
        looked_up,
        looked_up,
        plain any_port (accept_error_logged ∷ (accept_error_logged ∷ [])) (λ effects. refl),
        plain any_port (accept_error_logged ∷ []) (λ effects. refl),
        delayless found,
        delayless any_port,
        delayless any_port,
      )
