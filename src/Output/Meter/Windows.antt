-- ===== src/Output/Meter/Windows.antt =====
-- The windows of the meter.
use statico.Prelude.{
  ℕ, zero, suc, ◌+◌, ◌-◌, ◌≤◌, ◌<◌, List, [], ◌∷◌, Option, some, ◌≡◌, refl, length, get_elem?,
  arith, ltb, if◌then◌else◌,
}
use native.Mathlib.Nat.{mod-lt}
use statico.Counters.{PortCounters}
use statico.Counters.Totals.{Field, requests, request_bytes, responses, response_bytes}
use statico.Output.Meter.{
  slot, spinner, Tick, Meter, Window, MeterLine, start_meter, gain, window_of, line_of, next_meter,
  run_meter,
}

abbrev pub field_of : {V : Type 0} → Field → PortCounters V → V
field_of requests c = c.requests
field_of request_bytes c = c.request_bytes
field_of responses c = c.responses
field_of response_bytes c = c.response_bytes

abbrev pub last_values : {V : Type 0} → PortCounters V → List (Tick V) → PortCounters V
last_values values [] = values
last_values values (r ∷ rounds) = last_values r.values rounds

abbrev pub last_instant : {V : Type 0} → ℕ → List (Tick V) → ℕ
last_instant now [] = now
last_instant now (r ∷ rounds) = last_instant r.after_sleep rounds

module _ {V : Type 0} (amount : V → ℕ) where
  -- Neither the clock nor a counter goes back.
  abbrev pub Grows : PortCounters V → ℕ → List (Tick V) → Type 0
  Grows values now [] = Unit
  Grows values now (r ∷ rounds) =
      ((field : Field) → amount (field_of field values) ≤ amount (field_of field r.values))
      × (now ≤ r.after_sleep)
      × Grows r.values r.after_sleep rounds

  -- What a column of the lines is computed from.
  abbrev pub gained_in : {T : Type 0} → Field → List (Window V × MeterLine T) → ℕ
  gained_in field [] = 0
  gained_in field ((w, line) ∷ printed) = amount (field_of field w.gained) + gained_in field printed

abbrev pub elapsed_in : {V T : Type 0} → List (Window V × MeterLine T) → ℕ
elapsed_in [] = 0
elapsed_in ((w, line) ∷ printed) = w.elapsed + elapsed_in printed

-- Every round sleeps up to the time that is so many slots after the start, or not at all if that is over.
abbrev pub OnTime : {V T : Type 0} → ℕ → List (Tick V) → List (Window V × MeterLine T) → Type 0
OnTime deadline [] [] = Unit
OnTime deadline (r ∷ rounds) ((w, line) ∷ printed) =
    (w.slept ≡ deadline + slot - r.before_sleep) × OnTime (deadline + slot) rounds printed
OnTime deadline _ _ = ⊥

in_range : (xs : List ℕ) (i : ℕ) → i < length xs → (x : ℕ) × (get_elem? xs i ≡ some x)
in_range [] i h = absurd (omega arith)
in_range (x ∷ xs) zero h = (x, refl)
in_range (x ∷ xs) (suc i) h = in_range xs i (omega arith)

until_lem : (now deadline : ℕ) → (if ltb now deadline then deadline - now else 0) ≡ deadline - now
until_lem now deadline = ground arith

module _ {V F T : Type 0} (minus : V → V → V) (per_second : V → ℕ → F) (to_gbps : F → F)
    (as_u64 : F → ℕ) (three_digits : F → T) (amount : V → ℕ)
    (amount-minus : (a b : V) → amount (minus a b) ≡ amount a - amount b) where
  amount-gain :
      (field : Field) (values previous : PortCounters V)
      → amount (field_of field (gain minus per_second to_gbps as_u64 three_digits values previous))
        ≡ amount (field_of field values) - amount (field_of field previous)
  amount-gain requests values previous = amount-minus _ _
  amount-gain request_bytes values previous = amount-minus _ _
  amount-gain responses values previous = amount-minus _ _
  amount-gain response_bytes values previous = amount-minus _ _

  -- What the loop prints from a state on.
  abbrev Tiles : List (Tick V) → Meter V → Option (List (Window V × MeterLine T)) → Type 0
  Tiles rounds s result =
      (printed : List (Window V × MeterLine T)) × (result ≡ some printed)
      × ((field : Field)
          → amount (field_of field s.previous) + gained_in amount field printed
            ≡ amount (field_of field (last_values s.previous rounds)))
      × (s.prev_instant + elapsed_in printed ≡ last_instant s.prev_instant rounds)
      × OnTime s.deadline rounds printed

  run_meter-Tiles :
      (rounds : List (Tick V)) (s : Meter V)
      → s.spinner_idx < length spinner
      → Grows amount s.previous s.prev_instant rounds
      → Tiles rounds s (run_meter minus per_second to_gbps as_u64 three_digits rounds s)
  unfolding run_meter window_of next_meter
  run_meter-Tiles [] s i g = ([], refl, λ field. omega arith, omega arith, tt)
  run_meter-Tiles (r ∷ rounds) s i g =
      let glyph = in_range spinner s.spinner_idx i in
      let next : Meter V = next_meter minus per_second to_gbps as_u64 three_digits r s in
      let rest =
        run_meter-Tiles rounds next (mod-lt (s.spinner_idx + 1) {m = length spinner} (omega arith))
          g.2 in
      let w : Window V = window_of minus per_second to_gbps as_u64 three_digits r s in
      rw (run_meter, glyph.1, rest.1)
        (
          (w, line_of minus per_second to_gbps as_u64 three_digits glyph.0 w) ∷ rest.0,
          refl,
          λ field. omega (arith, amount-gain field r.values s.previous, g.0 field, rest.2 field),
          omega (arith, g.1, rest.3),
          (until_lem r.before_sleep (s.deadline + slot), rest.4),
        )

  -- Let no counter and no clock go back, and let the difference of two values be that of their amounts. Then the
  -- meter prints a line for every round, without a stop at its spinner; for each of the four
  -- counters what the lines are computed from adds up to exactly what the counter gained from the
  -- first reading to the last, so that nothing is left out or counted twice between two lines; their
  -- times add up to the time that has passed; and every round sleeps up to the moment
  -- that lies as many slots after the start as there are rounds so far, if it has not passed, so that delays do not accumulate.
  pub meter-Tiles :
      (values : PortCounters V) (now : ℕ) (rounds : List (Tick V))
      → Grows amount values now rounds
      → (printed : List (Window V × MeterLine T)) × (run_meter minus per_second to_gbps as_u64
            three_digits rounds
            (start_meter values now)
          ≡ some printed)
        × ((field : Field)
            → amount (field_of field values) + gained_in amount field printed
              ≡ amount (field_of field (last_values values rounds)))
        × (now + elapsed_in printed ≡ last_instant now rounds)
        × OnTime now rounds printed
  meter-Tiles values now rounds g = run_meter-Tiles rounds (start_meter values now) (omega arith) g
