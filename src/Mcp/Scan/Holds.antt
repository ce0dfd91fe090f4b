-- ===== src/Mcp/Scan/Holds.antt =====
-- Total correctness of a scan: it ends, and what it finds meets a postcondition.
use statico.Prelude.{Option, none, some, ◌≡◌, ◌≢◌, refl, subst}
use statico.Mcp.Scan.{Scan, found, absent, stuck, ◌>>=◌, ask}

abbrev pub Holds {ℓ} : {A : Type ℓ} → (A → Type 0) → Scan A → Type 0
Holds P (found a) = P a
Holds P absent = Unit
Holds P stuck = ⊥

module _ {ℓ κ} {A : Type ℓ} {B : Type κ} where
  pub Holds-bind :
      (P : A → Type 0) (Q : B → Type 0) (m : Scan A) (f : A → Scan B)
      → Holds P m
      → ((a : A) → m ≡ found a → P a → Holds Q (f a))
      → Holds Q (m >>= f)
  Holds-bind P Q (found a) f h k = k a refl h
  Holds-bind P Q absent f h k = tt
  Holds-bind P Q stuck f h k = h

  pub Holds-ask :
      (Q : B → Type 0) (o : Option A) (f : A → Scan B)
      → ((a : A) → o ≡ some a → Holds Q (f a))
      → Holds Q (ask o >>= f)
  Holds-ask Q none f k = tt
  Holds-ask Q (some a) f k = k a refl

  pub >>=-eq-found :
      (m : Scan A) (f : A → Scan B) {b : B}
      → m >>= f ≡ found b
      → (a : A) × (m ≡ found a) × (f a ≡ found b)
  >>=-eq-found (found a) f h = (a, refl, h)
  >>=-eq-found absent f h = cc
  >>=-eq-found stuck f h = cc

module _ {ℓ} {A : Type ℓ} where
  pub Holds-map : (P Q : A → Type 0) (m : Scan A) → Holds P m → ((a : A) → P a → Q a) → Holds Q m
  Holds-map P Q (found a) h k = k a h
  Holds-map P Q absent h k = tt
  Holds-map P Q stuck h k = h

  pub Holds-found : (P : A → Type 0) (m : Scan A) {a : A} → Holds P m → m ≡ found a → P a
  Holds-found P (found a) h e = subst (Holds P) e h
  Holds-found P absent h e = cc
  Holds-found P stuck h e = absurd h

  pub Holds-ne-stuck : (P : A → Type 0) (m : Scan A) → Holds P m → m ≢ stuck
  Holds-ne-stuck P (found a) h e = cc
  Holds-ne-stuck P absent h e = cc
  Holds-ne-stuck P stuck h e = h

  pub Holds-and : (P Q : A → Type 0) (m : Scan A) → Holds P m → Holds Q m → Holds (λ a. P a × Q a) m
  Holds-and P Q (found a) h k = (h, k)
  Holds-and P Q absent h k = tt
  Holds-and P Q stuck h k = h
