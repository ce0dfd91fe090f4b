-- ===== src/Ports/Tests.antt =====
-- Runs of the sharing out of ports.
use statico.Prelude.{
  ◌≡◌, refl, false, [], ◌∷◌, List, some, none, length, concat, ◌/◌, if◌then◌else◌, ltb, All, arith,
  ℕ,
}
use statico.Ports.{replicate, chunks_loop, chunks_balanced, balance_ports}
use statico.Ports.Balance.{IsBalanced, balance_ports-Cuts}

-- Two ports among three threads: the third has none.
idle_thread : balance_ports (80 ∷ 81 ∷ []) 3 false ≡ some ((80 ∷ []) ∷ (81 ∷ []) ∷ [] ∷ [])
unfolding balance_ports chunks_balanced chunks_loop
idle_thread = refl

no_threads : balance_ports (80 ∷ []) 0 false ≡ none
unfolding balance_ports chunks_balanced
no_threads = refl

balance_ports-Cuts_example :
    (chunks : List (List ℕ)) × (balance_ports (80 ∷ 81 ∷ []) 5 false ≡ some chunks)
    × (length chunks ≡ 5)
    × (concat chunks
        ≡ (if ltb 1 (5 / 2) then concat (replicate (5 / 2) (80 ∷ 81 ∷ [])) else 80 ∷ 81 ∷ []))
    × All (IsBalanced (length (concat chunks) / 5)) chunks
balance_ports-Cuts_example = balance_ports-Cuts (80 ∷ 81 ∷ []) 5 (omega arith) (omega arith)
