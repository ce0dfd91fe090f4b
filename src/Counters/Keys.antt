-- ===== src/Counters/Keys.antt =====
-- Which ports have counters.
use statico.Prelude.{
  ℕ, Bool, true, false, ◌||◌, List, [], ◌∷◌, some, ◌≡◌, refl, sym, ap, ◌∙◌, subst, ◌==◌, ==_iff,
  arith, Bool-cases, inl, inr,
}
use statico.Counters.{PortCounters, default, is_key, init_port_counters, port_counters}

abbrev pub is_elem : ℕ → List ℕ → Bool
is_elem port [] = false
is_elem port (p ∷ ports) = port == p || is_elem port ports

pub or_false : (b : Bool) → (b || false) ≡ b
or_false true = refl
or_false false = refl

or_swap : (a b c : Bool) → (b || (a || c)) ≡ ((a || b) || c)
or_swap true true c = refl
or_swap true false c = refl
or_swap false true c = refl
or_swap false false c = refl

or_absorb : (a b c : Bool) → (a ≡ true → c ≡ true) → (b || c) ≡ ((a || b) || c)
or_absorb true true c h = refl
or_absorb true false c h = h refl
or_absorb false b c h = refl

module _ {M : Type 0} (fresh : M) (add : M → ℕ → M) where
  pub is_key-init_port_counters :
      (port : ℕ) (ports : List ℕ) (map : List (ℕ × PortCounters M))
      → is_key fresh add port (init_port_counters fresh add ports map)
        ≡ (is_elem port ports || is_key fresh add port map)
  unfolding init_port_counters
  is_key-init_port_counters port [] map = refl
  is_key-init_port_counters port (p ∷ ports) map = elim (Bool-cases (is_key fresh add p map)) [
    | inr n ↦ rw n (
        is_key-init_port_counters port ports ((p, default fresh add) ∷ map)
        ∙ or_swap (port == p) (is_elem port ports) (is_key fresh add port map))
    | inl y ↦ rw y (
        is_key-init_port_counters port ports map
        ∙ or_absorb (port == p) (is_elem port ports) (is_key fresh add port map)
            (λ e. subst (λ (q : ℕ). is_key fresh add q map ≡ true) (sym ((==_iff port p).0 e)) y))
  ]

  -- The counters of a port that is registered can be changed.
  pub port_counters-some :
      (port : ℕ) (change : PortCounters M → PortCounters M) (map : List (ℕ × PortCounters M))
      → is_key fresh add port map ≡ true
      → (changed : List (ℕ × PortCounters M)) × (port_counters fresh add port change map
          ≡ some changed)
  unfolding port_counters
  port_counters-some port change [] h = absurd (ground arith)
  port_counters-some port change ((p, c) ∷ map) h = elim (Bool-cases (port == p)) [
    | inl y ↦ rw (port_counters, y) ((p, change c) ∷ map, refl)
    | inr n ↦
        let there : is_key fresh add port map ≡ true =
          ap (λ (b : Bool). b || is_key fresh add port map) (sym n) ∙ h in
        let rest = port_counters-some port change map there in
        rw (port_counters, n, rest.1) ((p, c) ∷ rest.0, refl)
  ]
