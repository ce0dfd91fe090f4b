-- ===== src/Output/Meter/Tests.antt =====
-- Two seconds of the meter, the second of which is late.
use statico.Prelude.{ℕ, ◌+◌, ◌-◌, ◌*◌, ◌/◌, ◌≤◌, List, [], ◌∷◌, some, ◌≡◌, refl, arith}
use statico.Counters.{PortCounters}
use statico.Counters.Totals.{Field, requests, request_bytes, responses, response_bytes}
use statico.Output.Meter.{
  Tick, Window, MeterLine, start_meter, run_meter, window_of, line_of, next_meter,
}
use statico.Output.Meter.Windows.{
  field_of, last_values, last_instant, gained_in, elapsed_in, OnTime, meter-Tiles,
}

abbrev minus : ℕ → ℕ → ℕ
minus a b = a - b

abbrev per_second : ℕ → ℕ → ℕ
per_second n elapsed = n * 1000000000 / elapsed

abbrev itself : ℕ → ℕ
itself n = n

abbrev eightfold : ℕ → ℕ
eightfold n = 8 * n

abbrev counted : ℕ → PortCounters ℕ
counted n = record { requests = n; request_bytes = 100 * n; responses = n; response_bytes = 50 * n }

abbrev rounds : List (Tick ℕ)
rounds =
    record { before_sleep = 10; values = counted 40; after_sleep = 1000000000 }
    ∷ (record { before_sleep = 2500000000; values = counted 70; after_sleep = 2500000000 } ∷ [])

abbrev late_window : Window ℕ
late_window = record {
  slept = 0;
  gained = record { requests = 30; request_bytes = 3000; responses = 30; response_bytes = 1500 };
  elapsed = 1500000000;
}

abbrev late_line : MeterLine ℕ
late_line = record {
  glyph = 10265;
  req_per_sec = 20;
  req_gbps = 16000;
  res_per_sec = 20;
  res_gbps = 8000;
}

first_line :
    (first : Window ℕ × MeterLine ℕ) × (run_meter minus per_second eightfold itself itself rounds
        (start_meter (counted 0) 0)
      ≡ some (first ∷ ((late_window, late_line) ∷ [])))
unfolding run_meter window_of line_of next_meter
first_line = (_, refl)

first_growth : (field : Field) → field_of field (counted 0) ≤ field_of field (counted 40)
first_growth requests = omega arith
first_growth request_bytes = omega arith
first_growth responses = omega arith
first_growth response_bytes = omega arith

second_growth : (field : Field) → field_of field (counted 40) ≤ field_of field (counted 70)
second_growth requests = omega arith
second_growth request_bytes = omega arith
second_growth responses = omega arith
second_growth response_bytes = omega arith

meter-Tiles_example :
    (printed : List (Window ℕ × MeterLine ℕ)) × (run_meter minus per_second eightfold itself itself
        rounds
        (start_meter (counted 0) 0)
      ≡ some printed)
    × ((field : Field)
        → field_of field (counted 0) + gained_in itself field printed
          ≡ field_of field (last_values (counted 0) rounds))
    × (0 + elapsed_in printed ≡ last_instant 0 rounds)
    × OnTime 0 rounds printed
meter-Tiles_example =
    meter-Tiles minus per_second eightfold itself itself itself (λ a b. refl) (counted 0) 0 rounds
      (first_growth, omega arith, (second_growth, omega arith, tt))
