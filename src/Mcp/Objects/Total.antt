-- ===== src/Mcp/Objects/Total.antt =====
-- The object loops end on every body, and keep what their steps keep.
use statico.Prelude.{
  ℕ, zero, suc, ◌+◌, ◌≤◌, ◌<◌, inl, inr, Bytes, arith, length, get_elem?, Bool-cases, ◌==◌,
}
use statico.Mcp.Scan.{Scan, found, ◌>>=◌, slice, skip_ws, parse_string, Round, next, return}
use statico.Mcp.Scan.At.{get_elem?-lt}
use statico.Mcp.Scan.Holds.{Holds, Holds-bind, Holds-ask, Holds-map}
use statico.Mcp.Scan.Bounds.{IsSpan, parse_string-Holds, skip_ws_bounds}
use statico.Mcp.Objects.{
  after_member, after_value, object_round, continue, object_loop, object_scan,
}

-- An outcome from position `i` on: a state in `P` at no earlier position, or a result in `Q`.
abbrev pub Kept {ℓ κ} :
    {S : Type ℓ} {R : Type κ} → (S → Type 0) → (R → Type 0) → ℕ → Round (S × ℕ) R → Type 0
Kept P Q i (next (s, j)) = P s × (i ≤ j)
Kept P Q i (return v) = Q v

-- The outcome of a round: a later position in the body, or a result.
abbrev pub Moved {ℓ κ} :
    {S : Type ℓ} {R : Type κ} → (S → Type 0) → (R → Type 0) → ℕ → ℕ → Round (S × ℕ) R → Type 0
Moved P Q bound i (next (s, j)) = P s × (i < j) × (j ≤ bound)
Moved P Q bound i (return v) = Q v

module _ {ℓ κ} {S : Type ℓ} {R : Type κ} (P : S → Type 0) (Q : R → Type 0) (on_end : S → Scan R)
    (on_key : S → Bytes → ℕ → Scan (Round (S × ℕ) R)) (body : Bytes)
    (ends : (s : S) → P s → Holds Q (on_end s))
    (steps : (s : S) (ks ke i : ℕ) → P s → Holds (Kept P Q i) (on_key s (slice body ks ke) i)) where
  abbrev After : ℕ → Round (S × ℕ) R → Type 0
  After i = Moved P Q (length body) i

  end_round : (s : S) (i : ℕ) → P s → Holds (After i) (on_end s >>= λ v. found (return v))
  end_round s i p = Holds-bind Q (After i) (on_end s) _ (ends s p) (λ v _ q. q)

  after_member-Holds : (s : S) (i : ℕ) → P s → Holds (After i) (after_member on_end body s i)
  unfolding after_member
  after_member-Holds s i p = Holds-ask (After i) (get_elem? body (skip_ws body i)) _ (λ e at.
      elim (Bool-cases (e == b',')) [
        | inl y ↦
            rw y (p, omega (arith, skip_ws_bounds body i), omega (arith, get_elem?-lt body _ e at))
        | inr n ↦
            rw n
              (elim (Bool-cases (e == b'}')) [ inl y ↦ rw y (end_round s i p) | inr n' ↦ rw n' tt ])
      ])

  after_value-Holds :
      (r : Round (S × ℕ) R) (i : ℕ) → Kept P Q i r → Holds (After i) (after_value on_end body r)
  after_value-Holds (next (s, j)) i (p, h) =
      Holds-map (After j) (After i) (after_member on_end body s j) (after_member-Holds s j p)
        (weaken i j h)
    where
      weaken : (i j : ℕ) → i ≤ j → (r : Round (S × ℕ) R) → After j r → After i r
      weaken i j h (next (s, k)) (p, l, m) = (p, omega arith, m)
      weaken i j h (return v) q = q
  after_value-Holds (return v) i q = q

  -- A round moves on by one byte at least.
  object_round-Holds : (i : ℕ) (s : S) → P s → Holds (After i) (object_round on_end on_key body i s)
  unfolding object_round
  object_round-Holds i s p = Holds-ask (After i) (get_elem? body (skip_ws body i)) _ (λ c _.
      elim (Bool-cases (c == b'}')) [
        | inl y ↦ rw y (end_round s i p)
        | inr n ↦ rw n (
            Holds-bind (IsSpan (skip_ws body i + 1) (length body)) (After i)
              (parse_string body (skip_ws body i)) _ (parse_string-Holds body (skip_ws body i))
              (λ span _ b. Holds-ask (After i) (get_elem? body (skip_ws body span.2)) _ (λ d _.
                elim (Bool-cases (d == b':')) [
                  | inl y ↦ rw y (value span.0 span.1 span.2 (omega (arith, skip_ws_bounds body i)))
                  | inr n' ↦ rw n' tt
                ])))
      ])
    where
      value :
          (ks ke after_key : ℕ)
          → i ≤ after_key
          → Holds (After i) (
              on_key s (slice body ks ke) (skip_ws body (skip_ws body after_key + 1))
              >>= after_value on_end body)
      value ks ke after_key h =
          let at = skip_ws body (skip_ws body after_key + 1) in
          Holds-bind (Kept P Q at) (After i) (on_key s (slice body ks ke) at)
            (after_value on_end body) (steps s ks ke at p)
            (λ r _ k.
              Holds-map (After at) (After i) (after_value on_end body r) (after_value-Holds r at k)
                (lower at (
                  omega (
                    arith,
                    skip_ws_bounds body after_key,
                    skip_ws_bounds body (skip_ws body after_key + 1),
                  ))))
        where
          lower : (at : ℕ) → i ≤ at → (r : Round (S × ℕ) R) → After at r → After i r
          lower at h (next (s, k)) (p, l, m) = (p, omega arith, m)
          lower at h (return v) q = q

  pub object_loop-Holds :
      (fuel i : ℕ) (s : S)
      → P s
      → i ≤ length body
      → length body < i + fuel
      → Holds Q (object_loop fuel on_end on_key body i s)
  unfolding object_loop
  object_loop-Holds zero i s p l k = absurd (omega arith)
  object_loop-Holds (suc fuel) i s p l k =
      Holds-bind (After i) Q (object_round on_end on_key body i s) _ (object_round-Holds i s p)
        (λ r _ kept. go (object_loop-Holds fuel) r kept)
    where
      go :
          ((j : ℕ) (s' : S)
            → P s'
            → j ≤ length body
            → length body < j + fuel
            → Holds Q (object_loop fuel on_end on_key body j s'))
          → (r : Round (S × ℕ) R) → After i r
          → Holds Q (continue (λ s' i'. object_loop fuel on_end on_key body i' s') r)
      go ih (next (s', j)) (p', h, m) = ih j s' p' m (omega arith)
      go ih (return v) q = q

  pub object_scan-Holds : (s : S) → P s → Holds Q (object_scan on_end on_key body s)
  unfolding object_scan
  object_scan-Holds s p = Holds-ask Q (get_elem? body (skip_ws body 0)) _ (λ c e.
      elim (Bool-cases (c == b'{')) [
        | inl y ↦ rw y (
            object_loop-Holds (length body) (skip_ws body 0 + 1) s p
              (omega (arith, get_elem?-lt body (skip_ws body 0) c e))
              (omega (arith, get_elem?-lt body (skip_ws body 0) c e)))
        | inr n ↦ rw n tt
      ])
