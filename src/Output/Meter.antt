-- ===== src/Output/Meter.antt =====
-- The meter of src/main.rs: the thread that prints what the counters gained, second after second. A
-- round is given the clock before its sleep, the counters' values after it, and the clock then; times
-- are in nanoseconds. The difference of two values and the arithmetic in floating point are parameters.
-- A missing glyph would stop the thread: `none`.
pub mod Windows
mod Tests
use statico.Prelude.{
  ℕ, zero, suc, ◌+◌, ◌-◌, ◌%◌, Bool, List, [], ◌∷◌, Option, none, some, ltb, length, get_elem?,
  Bytes, codes, if◌then◌else◌,
}
use statico.Counters.{PortCounters}

abbrev pub slot : ℕ
slot = 1000000000

abbrev pub spinner : List ℕ
spinner = codes "⠋⠙⠹⠸⠼⠴⠦⠧⠇⠏"

pub record Tick (V : Type 0) : Type 0 where
  pub before_sleep : ℕ
  pub values : PortCounters V
  pub after_sleep : ℕ

-- The variables of the loop.
pub record Meter (V : Type 0) : Type 0 where
  pub previous : PortCounters V
  pub deadline : ℕ
  pub prev_instant : ℕ
  pub spinner_idx : ℕ

-- What the loop computes in a round.
pub record Window (V : Type 0) : Type 0 where
  pub slept : ℕ
  pub gained : PortCounters V
  pub elapsed : ℕ

pub record MeterLine (T : Type 0) : Type 0 where
  pub glyph : ℕ
  pub req_per_sec : ℕ
  pub req_gbps : T
  pub res_per_sec : ℕ
  pub res_gbps : T

-- Before the loop.
abbrev pub start_meter : {V : Type 0} → PortCounters V → ℕ → Meter V
start_meter values now = record {
  previous = values;
  deadline = now;
  prev_instant = now;
  spinner_idx = 0;
}

module _ {V F T : Type 0} (minus : V → V → V) (per_second : V → ℕ → F) (to_gbps : F → F)
    (as_u64 : F → ℕ) (three_digits : F → T) where
  abbrev pub gain : PortCounters V → PortCounters V → PortCounters V
  gain values previous = record {
    requests = minus values.requests previous.requests;
    request_bytes = minus values.request_bytes previous.request_bytes;
    responses = minus values.responses previous.responses;
    response_bytes = minus values.response_bytes previous.response_bytes;
  }

  unfoldable pub window_of : Tick V → Meter V → Window V
  window_of r s =
      let deadline = s.deadline + slot in
      record {
        slept = if ltb r.before_sleep deadline then deadline - r.before_sleep else 0;
        gained = gain r.values s.previous;
        elapsed = r.after_sleep - s.prev_instant;
      }

  unfoldable pub line_of : ℕ → Window V → MeterLine T
  line_of glyph w = record {
    glyph = glyph;
    req_per_sec = as_u64 (per_second w.gained.requests w.elapsed);
    req_gbps = three_digits (to_gbps (per_second w.gained.request_bytes w.elapsed));
    res_per_sec = as_u64 (per_second w.gained.responses w.elapsed);
    res_gbps = three_digits (to_gbps (per_second w.gained.response_bytes w.elapsed));
  }

  unfoldable pub next_meter : Tick V → Meter V → Meter V
  next_meter r s = record {
    previous = r.values;
    deadline = s.deadline + slot;
    prev_instant = r.after_sleep;
    spinner_idx = (s.spinner_idx + 1) % length spinner;
  }

  unfoldable pub run_meter : List (Tick V) → Meter V → Option (List (Window V × MeterLine T))
  run_meter [] s = some []
  run_meter (r ∷ rounds) s =
      let rest = run_meter rounds (next_meter r s) in
      elim (get_elem? spinner s.spinner_idx) [
        | none ↦ none
        | some glyph ↦ elim rest [
          | none ↦ none
          | some printed ↦ some ((window_of r s, line_of glyph (window_of r s)) ∷ printed)
        ]
      ]
