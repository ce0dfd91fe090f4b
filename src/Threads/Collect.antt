-- ===== src/Threads/Collect.antt =====
-- The loops over the addresses: what they give for every address, or what has failed at one.
use statico.Prelude.{
  ℕ, zero, suc, List, [], ◌∷◌, map, ◌⊎◌, inl, inr, ◌≡◌, refl, sym, subst, Option, none, some,
}
use statico.Threads.{try_collect}

abbrev pub Mem : {A : Type 0} → A → List A → Type 0
Mem a [] = ⊥
Mem a (b ∷ rest) = (a ≡ b) ⊎ Mem a rest

-- The lists have the same length, and each pair is related.
abbrev pub Zip : {A B : Type 0} → (A → B → Type 0) → List A → List B → Type 0
Zip R [] [] = Unit
Zip R (a ∷ xs) (b ∷ ys) = R a b × Zip R xs ys
Zip R _ _ = ⊥

pub Zip-mono :
    {A B : Type 0} (R Q : A → B → Type 0) (xs : List A) (ys : List B)
    → ((a : A) (b : B) → R a b → Q a b)
    → Zip R xs ys
    → Zip Q xs ys
Zip-mono R Q [] [] h z = tt
Zip-mono R Q (a ∷ xs) (b ∷ ys) h z = (h a b z.0, Zip-mono R Q xs ys h z.1)
Zip-mono R Q [] (b ∷ ys) h z = z
Zip-mono R Q (a ∷ xs) [] h z = z

pub Zip-map :
    {A B C : Type 0} (R : A → B → Type 0) (f : B → C) (xs : List A) (ys : List B)
    → Zip R xs ys
    → Zip (λ a c. (b : B) × R a b × (c ≡ f b)) xs (map f ys)
Zip-map R f [] [] z = tt
Zip-map R f (a ∷ xs) (b ∷ ys) z = ((b, z.0, refl), Zip-map R f xs ys z.1)
Zip-map R f [] (b ∷ ys) z = z
Zip-map R f (a ∷ xs) [] z = z

pub Zip-trans :
    {A B C : Type 0} (R : A → B → Type 0) (Q : B → C → Type 0) (xs : List A) (ys : List B)
    (zs : List C)
    → Zip R xs ys
    → Zip Q ys zs
    → Zip (λ a c. (b : B) × R a b × Q b c) xs zs
Zip-trans R Q [] [] [] z w = tt
Zip-trans R Q (a ∷ xs) (b ∷ ys) (c ∷ zs) z w = ((b, z.0, w.0), Zip-trans R Q xs ys zs z.1 w.1)
Zip-trans R Q [] (b ∷ ys) zs z w = absurd z
Zip-trans R Q (a ∷ xs) [] zs z w = absurd z
Zip-trans R Q [] [] (c ∷ zs) z w = absurd w
Zip-trans R Q (a ∷ xs) (b ∷ ys) [] z w = absurd w

-- An element of the second list is related to one of the first.
pub Zip-back :
    {A B : Type 0} (R : A → B → Type 0) (xs : List A) (ys : List B) (b : B)
    → Zip R xs ys
    → Mem b ys
    → (a : A) × Mem a xs × R a b
Zip-back R [] [] b z m = absurd m
Zip-back R (a ∷ xs) (c ∷ ys) b z (inl e) = (a, inl refl, subst (R a) (sym e) z.0)
Zip-back R (a ∷ xs) (c ∷ ys) b z (inr m) =
    let rest = Zip-back R xs ys b z.1 m in (rest.0, inr rest.1, rest.2)
Zip-back R [] (c ∷ ys) b z m = absurd z
Zip-back R (a ∷ xs) [] b z m = absurd z

-- `P` of what a sum holds on the left, `Q` of what it holds on the right.
abbrev pub Either : {X B : Type 0} → (X → Type 0) → (B → Type 0) → X ⊎ B → Type 0
Either P Q (inl x) = P x
Either P Q (inr b) = Q b

pub Either-mono :
    {X B : Type 0} (P P' : X → Type 0) (Q Q' : B → Type 0) (s : X ⊎ B)
    → ((x : X) → P x → P' x)
    → ((b : B) → Q b → Q' b)
    → Either P Q s
    → Either P' Q' s
Either-mono P P' Q Q' (inl x) h k e = h x e
Either-mono P P' Q Q' (inr b) h k e = k b e

pub Either-itself : {X B : Type 0} (s : X ⊎ B) → Either (λ x. s ≡ inl x) (λ b. s ≡ inr b) s
Either-itself (inl x) = refl
Either-itself (inr b) = refl

cons-Either :
    {X A B : Type 0} (P : X → Type 0) (Q : A → B → Type 0) (a : A) (xs : List A) (s : X ⊎ B)
    (t : X ⊎ List B)
    → Either P (Q a) s
    → Either P (Zip Q xs) t
    → Either P
        (Zip Q (a ∷ xs))
        (elim s [ inl x ↦ inl x | inr b ↦ elim t [ inl x ↦ inl x | inr bs ↦ inr (b ∷ bs) ] ])
cons-Either P Q a xs (inl x) t h k = h
cons-Either P Q a xs (inr b) (inl x) h k = k
cons-Either P Q a xs (inr b) (inr bs) h k = (h, k)

-- A loop over a list gives an element for each, or what it has ended with.
pub try_collect-Either :
    {X A B : Type 0} (P : X → Type 0) (Q : A → B → Type 0) (f : A → X ⊎ B) (xs : List A)
    → ((a : A) → Mem a xs → Either P (Q a) (f a))
    → Either P (Zip Q xs) (try_collect f xs)
try_collect-Either P Q f [] h = tt
try_collect-Either P Q f (a ∷ xs) h =
    cons-Either P Q a xs (f a) (try_collect f xs) (h a (inl refl))
      (try_collect-Either P Q f xs (λ b m. h b (inr m)))

-- A property of both branches on a sum, and of both on an option.
pub elim-Either :
    {X B C : Type 0} (P : X → Type 0) (Q : B → Type 0) (R : C → Type 0) (f : X → C) (g : B → C)
    (s : X ⊎ B)
    → Either P Q s
    → ((x : X) → P x → R (f x))
    → ((b : B) → Q b → R (g b))
    → R (elim s [ inl x ↦ f x | inr b ↦ g b ])
elim-Either P Q R f g (inl x) e h k = h x e
elim-Either P Q R f g (inr b) e h k = k b e

pub elim-Option :
    {A C : Type 0} (R : C → Type 0) (f : A → C) (c : C) (o : Option A)
    → ((a : A) → o ≡ some a → R (f a))
    → R c
    → R (elim o [ some a ↦ f a | none ↦ c ])
elim-Option R f c none h k = k
elim-Option R f c (some a) h k = h a refl

-- The same, with what the option is in both cases.
pub elim-Option-eq :
    {A C : Type 0} (R : C → Type 0) (f : A → C) (c : C) (o : Option A)
    → ((a : A) → o ≡ some a → R (f a))
    → (o ≡ none → R c)
    → R (elim o [ none ↦ c | some a ↦ f a ])
elim-Option-eq R f c none h k = k refl
elim-Option-eq R f c (some a) h k = h a refl

pub elim-cores :
    {C : Type 0} (R : C → Type 0) (a b c : C) (o : Option ℕ)
    → (o ≡ none → R a)
    → (o ≡ some zero → R b)
    → R c
    → R (elim o [ none ↦ a | some zero ↦ b | some (suc n) ↦ c ])
elim-cores R a b c none h k l = h refl
elim-cores R a b c (some zero) h k l = k refl
elim-cores R a b c (some (suc n)) h k l = l
