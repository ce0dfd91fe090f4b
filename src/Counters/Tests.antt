-- ===== src/Counters/Tests.antt =====
-- Two ports and three reports.
use statico.Prelude.{ℕ, ◌+◌, ◌≡◌, refl, List, [], ◌∷◌, some}
use statico.Counters.{Counters, Report, request, response, default, init_port_counters, record_all}
use statico.Counters.Totals.{Field, read, sum, raised, record_all-IsBalanced}

abbrev plus : ℕ → ℕ → ℕ
plus m n = m + n

abbrev reports : List Report
reports = request 80 12 ∷ response 80 40 ∷ request 81 7 ∷ []

record_all-IsBalanced_example :
    (t : Counters ℕ) × (record_all 0 plus reports (record {
      total = default 0 plus;
      by_port = init_port_counters 0 plus (80 ∷ 81 ∷ 80 ∷ []) [];
    })
      ≡ some t)
    × ((field : Field) → read 0 plus (λ n. n) field t.total ≡ sum 0 plus (λ n. n) field t.by_port)
    × ((field : Field)
        → read 0 plus (λ n. n) field t.total
          ≡ raised 0 plus (λ n. n) refl (λ m n. refl) reports field)
record_all-IsBalanced_example =
    record_all-IsBalanced 0 plus (λ n. n) refl (λ m n. refl) (80 ∷ 81 ∷ 80 ∷ []) reports
      (refl, (refl, (refl, tt)))
