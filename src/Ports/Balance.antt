-- ===== src/Ports/Balance.antt =====
-- What the sharing out of ports gives every thread.
use statico.Prelude.{
  ℕ, zero, suc, ◌+◌, ◌-◌, ◌*◌, ◌/◌, ◌%◌, ◌≤◌, true, false, List, [], ◌∷◌, ◌++◌, Option, some, ◌≡◌,
  refl, sym, ap, subst, ◌∙◌, length, take, drop, concat, All, length-append, length-take,
  length-drop, take-append-drop, drop_add, drop_all, arith, ltb, leb, ◌==◌, if◌then◌else◌,
}
use native.Mathlib.Nat.{div-add-mod, mod-lt}
use statico.Ports.{replicate, chunks_loop, chunks_balanced, balance_ports}

extra_lem :
    (i rem : ℕ)
    → ((if ltb i rem then 1 else 0) ≤ 1) × (rem - i ≡ (if ltb i rem then 1 else 0) + (rem - suc i))
extra_lem i rem = ground arith

module _ {ℓ} {A : Type ℓ} where
  abbrev pub IsBalanced : ℕ → List A → Type 0
  IsBalanced size chunk = (size ≤ length chunk) × (length chunk ≤ size + 1)

  -- `chunks` cuts `slice` into `n` pieces of `size` or `size + 1` elements.
  abbrev pub Cuts : List A → ℕ → ℕ → Option (List (List A)) → Type ℓ
  Cuts slice n size result =
      (chunks : List (List A)) × (result ≡ some chunks)
      × (concat chunks ≡ slice)
      × (length chunks ≡ n)
      × All (IsBalanced size) chunks

  chunks_loop-Cuts :
      (slice : List A) (base rem left i offset : ℕ)
      → offset ≤ length slice
      → length slice ≡ offset + left * base + (rem - i)
      → rem ≤ i + left
      → Cuts (drop offset slice) left base (chunks_loop slice base rem left i offset)
  unfolding chunks_loop
  chunks_loop-Cuts slice base rem zero i offset h total enough =
      let at_end : offset ≡ length slice = omega arith in
      ([], refl, sym (ap (λ (n : ℕ). drop n slice) at_end ∙ drop_all slice), refl, record {})
  chunks_loop-Cuts slice base rem (suc left) i offset h total enough =
      let extra : ℕ = if ltb i rem then 1 else 0 in
      let one = extra_lem i rem in
      let size : ℕ = base + extra in
      let rows : suc left * base ≡ left * base + base = grind arith in
      let inside : leb (offset + size) (length slice) ≡ true =
        ground (arith, total, rows, one.0, one.1) in
      let rest =
        chunks_loop-Cuts slice base rem left (suc i) (offset + size)
          (omega (arith, total, rows, one.1)) (omega (arith, total, rows, one.1))
          (omega (arith, enough)) in
      let taken : length (take size (drop offset slice)) ≡ size =
        length-take size (drop offset slice)
          (omega (arith, length-drop offset slice, total, rows, one.1)) in
      rw (chunks_loop, inside, rest.1)
        (
          take size (drop offset slice) ∷ rest.0,
          refl,
          ap (λ (xs : List A). take size (drop offset slice) ++ xs)
                (rest.2 ∙ drop_add offset size slice)
              ∙ take-append-drop size (drop offset slice),
          ap suc rest.3,
          ((omega (arith, taken), omega (arith, taken, one.0)), rest.4),
        )

  pub chunks_balanced-Cuts :
      (slice : List A) (n : ℕ) → 1 ≤ n → Cuts slice n (length slice / n) (chunks_balanced slice n)
  unfolding chunks_balanced
  chunks_balanced-Cuts slice n p =
      let some_chunks : (n == 0) ≡ false = ground arith in
      let division : length slice ≡ 0 + n * (length slice / n) + (length slice % n - 0) =
        omega (arith, div-add-mod (length slice) n) in
      rw some_chunks (
        chunks_loop-Cuts slice (length slice / n) (length slice % n) n 0 0 (omega arith) division
          (omega (arith, mod-lt (length slice) {m = n} (omega arith))))

  length-replicate-concat : (n : ℕ) (xs : List A) → length (concat (replicate n xs)) ≡ n * length xs
  length-replicate-concat zero xs = omega arith
  length-replicate-concat (suc n) xs =
      grind (arith, length-append xs (concat (replicate n xs)), length-replicate-concat n xs)

-- With at least one port and one thread, and no flag to bind all, the ports are shared out without a
-- failure: there is one list for each thread, the lists one behind the other are the ports repeated as
-- often as they go into the threads (once, when there are more ports than threads), and the sizes of
-- any two lists differ by at most one.
pub balance_ports-Cuts :
    (ports : List ℕ) (num_threads : ℕ)
    → 1 ≤ length ports
    → 1 ≤ num_threads
    → (chunks : List (List ℕ)) × (balance_ports ports num_threads false ≡ some chunks)
      × (length chunks ≡ num_threads)
      × (concat chunks ≡ (
          if ltb 1 (num_threads / length ports)
          then concat (replicate (num_threads / length ports) ports)
          else ports))
      × All (IsBalanced (length (concat chunks) / num_threads)) chunks
unfolding balance_ports
balance_ports-Cuts ports num_threads p t =
    let some_ports : (length ports == 0) ≡ false = ground arith in
    let mul = num_threads / length ports in
    let shared = if ltb 1 mul then concat (replicate mul ports) else ports in
    let cuts = chunks_balanced-Cuts shared num_threads t in
    rw some_ports (
      cuts.0,
      cuts.1,
      cuts.3,
      cuts.2,
      subst (λ (xs : List ℕ). All (IsBalanced (length xs / num_threads)) cuts.0) (sym cuts.2)
          cuts.4,
    )
