-- ===== src/Connections/Requests.antt =====
-- The complete requests that a stream of bytes starts with.
use statico.Prelude.{
  ℕ, zero, suc, ◌-◌, ◌≤◌, List, [], ◌∷◌, Option, none, some, ◌≡◌, refl, sym, ap, ◌∙◌, Bytes, length,
  drop, length-drop, arith, Option-cases, inl, inr,
}

module _ (decode : Bytes → Option ℕ) where
  -- The lengths of the complete requests that a stream starts with, one behind the other.
  abbrev frames : ℕ → Bytes → List ℕ
  frames zero stream = []
  frames (suc fuel) stream = elim (decode stream) [
    | none ↦ []
    | some n ↦ n ∷ frames fuel (drop n stream)
  ]

  abbrev pub requests : Bytes → List ℕ
  requests stream = frames (length stream) stream

  module _
      (decode-bounds : (s : Bytes) (n : ℕ) → decode s ≡ some n → (1 ≤ n) × (n ≤ length s)) where
    frames-none : (fuel : ℕ) (s : Bytes) → decode s ≡ none → frames fuel s ≡ []
    frames-none zero s e = refl
    frames-none (suc fuel) s e = rw (frames, e) refl

    -- More fuel than bytes changes nothing.
    frames-enough : (f g : ℕ) (s : Bytes) → length s ≤ f → length s ≤ g → frames f s ≡ frames g s
    frames-enough zero g s hf hg = elim (Option-cases (decode s)) [
      | inl e ↦ sym (frames-none g s e)
      | inr (n, e) ↦ absurd (omega (arith, (decode-bounds s n e).0, (decode-bounds s n e).1))
    ]
    frames-enough (suc f) zero s hf hg = elim (Option-cases (decode s)) [
      | inl e ↦ frames-none (suc f) s e
      | inr (n, e) ↦ absurd (omega (arith, (decode-bounds s n e).0, (decode-bounds s n e).1))
    ]
    frames-enough (suc f) (suc g) s hf hg = elim (Option-cases (decode s)) [
      | inl e ↦ frames-none (suc f) s e ∙ sym (frames-none (suc g) s e)
      | inr (n, e) ↦
          let bounds = decode-bounds s n e in
          let less : length (drop n s) ≡ length s - n = length-drop n s in
          rw (frames, e) (ap (◌∷◌ n) (frames-enough f g (drop n s) (omega arith) (omega arith)))
    ]

    pub requests-none : (s : Bytes) → decode s ≡ none → requests s ≡ []
    requests-none s e = frames-none (length s) s e

    pub requests-some :
        (s : Bytes) (n : ℕ) → decode s ≡ some n → requests s ≡ n ∷ requests (drop n s)
    requests-some s n e =
        let bounds = decode-bounds s n e in
        let less : length (drop n s) ≡ length s - n = length-drop n s in
        frames-enough (length s) (suc (length s)) s (omega arith) (omega arith)
        ∙ rw (frames, e)
            (ap (◌∷◌ n) (
              frames-enough (length s) (length (drop n s)) (drop n s) (omega (arith, bounds.0))
                (omega arith)))
