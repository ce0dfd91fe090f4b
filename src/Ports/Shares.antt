-- ===== src/Ports/Shares.antt =====
-- What the threads are given, whether or not all ports are bound by all.
use statico.Prelude.{
  ℕ, zero, suc, ◌/◌, Bool, true, false, List, [], ◌∷◌, ◌++◌, some, ◌≡◌, refl, sym, ap, subst, ◌∙◌,
  length, concat, All, All-append, arith, ltb, if◌then◌else◌, Bool-cases, inl, inr,
}
use mathlib.Core.Option.{some-injective}
use statico.Ports.{replicate, chunks_balanced, balance_ports}
use statico.Ports.Balance.{balance_ports-Cuts}

module _ {ℓ} {A : Type ℓ} (P : A → Type 0) where
  All-unappend : (xs ys : List A) → All P (xs ++ ys) → All P xs × All P ys
  All-unappend [] ys p = (record {}, p)
  All-unappend (x ∷ xs) ys p = let rest = All-unappend xs ys p.1 in ((p.0, rest.0), rest.1)

  All-unconcat : (xss : List (List A)) → All P (concat xss) → All (All P) xss
  All-unconcat [] p = record {}
  All-unconcat (xs ∷ xss) p =
      let both = All-unappend xs (concat xss) p in (both.0, All-unconcat xss both.1)

  All-concat : (xss : List (List A)) → All (All P) xss → All P (concat xss)
  All-concat [] p = record {}
  All-concat (xs ∷ xss) p = All-append P xs (concat xss) p.0 (All-concat xss p.1)

module _ {ℓ} {A : Type ℓ} where
  All-replicate : (P : A → Type 0) (n : ℕ) (a : A) → P a → All P (replicate n a)
  All-replicate P zero a p = record {}
  All-replicate P (suc n) a p = (p, All-replicate P n a p)

  length-replicate : (n : ℕ) (a : A) → length (replicate n a) ≡ n
  length-replicate zero a = refl
  length-replicate (suc n) a = ap suc (length-replicate n a)

module _ (P : ℕ → Type 0) where
  shared_lem :
      (mul : ℕ) (ports : List ℕ)
      → All P ports
      → All P (if ltb 1 mul then concat (replicate mul ports) else ports)
  shared_lem mul ports p = elim (Bool-cases (ltb 1 mul)) [
    | inl y ↦ rw y (All-concat P (replicate mul ports) (All-replicate (All P) mul ports p))
    | inr n ↦ rw n p
  ]

  -- Every thread has its list, and no list has a port that was not asked for.
  pub balance_ports-All :
      (ports : List ℕ) (num_threads : ℕ) (bind_all : Bool) (chunks : List (List ℕ))
      → balance_ports ports num_threads bind_all ≡ some chunks
      → All P ports
      → (length chunks ≡ num_threads) × All (All P) chunks
  unfolding balance_ports chunks_balanced
  balance_ports-All ports num_threads true chunks h p =
      let same = some-injective _ _ h in
      subst (λ (c : List (List ℕ)). (length c ≡ num_threads) × All (All P) c) same
        (length-replicate num_threads ports, All-replicate (All P) num_threads ports p)
  balance_ports-All [] num_threads false chunks h p = absurd (ground arith)
  balance_ports-All (port ∷ ports) zero false chunks h p = absurd (ground arith)
  balance_ports-All (port ∷ ports) (suc n) false chunks h p =
      let cuts = balance_ports-Cuts (port ∷ ports) (suc n) (omega arith) (omega arith) in
      let same = some-injective _ _ (sym cuts.1 ∙ h) in
      subst (λ (c : List (List ℕ)). (length c ≡ suc n) × All (All P) c) same
        (
          cuts.2,
          All-unconcat P cuts.0 (
              subst (All P) (sym cuts.3)
                (shared_lem (suc n / length (port ∷ ports)) (port ∷ ports) p)),
        )
