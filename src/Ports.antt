-- ===== src/Ports.antt =====
-- src/main.rs: how the ports are shared out among the worker threads. A division by zero and a slice
-- out of range stop the program: `none`.
pub mod Balance
pub mod Shares
mod Tests
use statico.Prelude.{
  ℕ, zero, suc, ◌+◌, ◌/◌, ◌%◌, Bool, List, [], ◌∷◌, ◌++◌, Option, none, some, length, take, drop,
  concat, ltb, leb, ◌==◌, if◌then◌else◌,
}

module _ {ℓ} {A : Type ℓ} where
  abbrev pub replicate : ℕ → A → List A
  replicate zero a = []
  replicate (suc n) a = a ∷ replicate n a

  -- `&slice[offset..offset + size]`
  abbrev pub subslice : ℕ → ℕ → List A → Option (List A)
  subslice offset size slice =
      if leb (offset + size) (length slice) then some (take size (drop offset slice)) else none

  -- The loop of `chunks_balanced`, with `left` rounds to go from round `i`.
  unfoldable pub chunks_loop : List A → ℕ → ℕ → ℕ → ℕ → ℕ → Option (List (List A))
  chunks_loop slice base_size remainder zero i offset = some []
  chunks_loop slice base_size remainder (suc left) i offset =
      let size = base_size + (if ltb i remainder then 1 else 0) in
      elim (subslice offset size slice) [
        | none ↦ none
        | some chunk ↦ elim (chunks_loop slice base_size remainder left (suc i) (offset + size)) [
          | none ↦ none
          | some chunks ↦ some (chunk ∷ chunks)
        ]
      ]

  unfoldable pub chunks_balanced : List A → ℕ → Option (List (List A))
  chunks_balanced slice chunks =
      if chunks == 0
      then none
      else chunks_loop slice (length slice / chunks) (length slice % chunks) chunks 0 0

unfoldable pub balance_ports : List ℕ → ℕ → Bool → Option (List (List ℕ))
balance_ports ports num_threads bind_all =
    if bind_all
    then some (replicate num_threads ports)
    else (if length ports == 0
        then none
        else (let mul = num_threads / length ports in
            chunks_balanced (if ltb 1 mul then concat (replicate mul ports) else ports)
              num_threads))
