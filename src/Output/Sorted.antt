-- ===== src/Output/Sorted.antt =====
-- The sorting of the ports.
use statico.Prelude.{ℕ, ◌<◌, false, List, [], ◌∷◌, ◌≡◌, All, leb, ◌==◌, arith, Bool-cases, inl, inr}
use mathlib.Core.List.{Perm}
use mathlib.Core.List.Perm
use statico.Output.{insert, sort_unstable}

abbrev pub Ascending : List ℕ → Type 0
Ascending [] = Unit
Ascending (port ∷ ports) = All (λ p. port < p) ports × Ascending ports

abbrev pub Distinct : List ℕ → Type 0
Distinct [] = Unit
Distinct (port ∷ ports) = All (λ p. (port == p) ≡ false) ports × Distinct ports

All-mono :
    {A : Type 0} (P Q : A → Type 0) (xs : List A) → ((a : A) → P a → Q a) → All P xs → All Q xs
All-mono P Q [] h p = tt
All-mono P Q (x ∷ xs) h p = (h x p.0, All-mono P Q xs h p.1)

pub All-both :
    {A : Type 0} (P Q R : A → Type 0) (xs : List A)
    → ((a : A) → P a → Q a → R a)
    → All P xs
    → All Q xs
    → All R xs
All-both P Q R [] h p q = tt
All-both P Q R (x ∷ xs) h p q = (h x p.0 q.0, All-both P Q R xs h p.1 q.1)

All-insert :
    (P : ℕ → Type 0) (port : ℕ) (ports : List ℕ) → P port → All P ports → All P (insert port ports)
All-insert P port [] q p = (q, tt)
All-insert P port (x ∷ xs) q p = elim (Bool-cases (leb port x)) [
  | inl y ↦ rw y (q, p)
  | inr n ↦ rw n (p.0, All-insert P port xs q p.1)
]

All-sort_unstable : (P : ℕ → Type 0) (ports : List ℕ) → All P ports → All P (sort_unstable ports)
unfolding sort_unstable
All-sort_unstable P [] p = tt
All-sort_unstable P (x ∷ xs) p = All-insert P x (sort_unstable xs) p.0 (All-sort_unstable P xs p.1)

insert-Ascending :
    (port : ℕ) (ports : List ℕ)
    → All (λ p. (port == p) ≡ false) ports
    → Ascending ports
    → Ascending (insert port ports)
insert-Ascending port [] new up = (tt, tt)
insert-Ascending port (x ∷ xs) new up = elim (Bool-cases (leb port x)) [
  | inl y ↦
      let below : port < x = ground (arith, new.0, y) in
      rw y ((below, All-mono _ _ xs (λ p l. omega (arith, below, l)) up.0), up)
  | inr n ↦
      let above : x < port = ground (arith, n) in
      rw n (All-insert (λ p. x < p) port xs above up.0, insert-Ascending port xs new.1 up.1)
]

pub sort_unstable-Ascending : (ports : List ℕ) → Distinct ports → Ascending (sort_unstable ports)
unfolding sort_unstable
sort_unstable-Ascending [] d = tt
sort_unstable-Ascending (x ∷ xs) d =
    insert-Ascending x (sort_unstable xs) (All-sort_unstable (λ p. (x == p) ≡ false) xs d.0)
      (sort_unstable-Ascending xs d.1)

Perm-insert : (port : ℕ) (ports : List ℕ) → Perm (insert port ports) (port ∷ ports)
Perm-insert port [] = Perm.refl (port ∷ [])
Perm-insert port (x ∷ xs) = elim (Bool-cases (leb port x)) [
  | inl y ↦ rw y (Perm.refl (port ∷ (x ∷ xs)))
  | inr n ↦ rw n (Perm.trans (Perm.cons x (Perm-insert port xs)) (Perm.swap port x xs))
]

pub sort_unstable-Perm : (ports : List ℕ) → Perm (sort_unstable ports) ports
unfolding sort_unstable
sort_unstable-Perm [] = Perm.refl []
sort_unstable-Perm (x ∷ xs) =
    Perm.trans (Perm-insert x (sort_unstable xs)) (Perm.cons x (sort_unstable-Perm xs))
