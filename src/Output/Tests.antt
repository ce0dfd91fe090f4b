-- ===== src/Output/Tests.antt =====
-- A report of two ports.
use statico.Prelude.{ℕ, ◌+◌, ◌/◌, true, List, [], ◌∷◌, some, ◌≡◌, refl}
use mathlib.Core.List.{Perm}
use statico.Counters.{
  PortCounters, Counters, Report, request, response, default, init_port_counters, record_all,
}
use statico.Counters.Totals.{Field, raised}
use statico.Output.{
  total_requests, total_request_bytes, total_responses, total_response_bytes, port_statistics,
  port_header, port_requests, port_request_bytes, port_responses, port_response_bytes, keys,
  print_final_report, sort_unstable, read_counters, port_lines, ports_lines,
}
use statico.Output.Sorted.{Ascending}
use statico.Output.Blocks.{blocks, figures, mapped, blocks-print_final_report}
use statico.Output.Sums.{printed_total, printed_sum, print_final_report_sums}

abbrev itself : ℕ → ℕ
itself n = n

abbrev gigabytes : ℕ → ℕ
gigabytes n = n / 1000000000

abbrev counters : ℕ → ℕ → PortCounters ℕ
counters a b = record { requests = a; request_bytes = b; responses = a; response_bytes = b }

abbrev by_port : List (ℕ × PortCounters ℕ)
by_port = (8081, counters 1 20) ∷ ((8080, counters 2 2000000000) ∷ [])

report :
    print_final_report itself itself gigabytes true (counters 3 2000000020) (some by_port)
    ≡ total_requests 3
      ∷ (total_request_bytes 2000000020 2
          ∷ (total_responses 3
              ∷ (total_response_bytes 2000000020 2
                  ∷ (port_statistics
                      ∷ (port_header 8080
                          ∷ (port_requests 2
                              ∷ (port_request_bytes 2000000000 2
                                  ∷ (port_responses 2
                                      ∷ (port_response_bytes 2000000000 2
                                          ∷ (port_header 8081
                                              ∷ (port_requests 1
                                                  ∷ (port_request_bytes 20 0
                                                      ∷ (port_responses 1
                                                          ∷ (port_response_bytes 20 0
                                                            ∷ []))))))))))))))
unfolding print_final_report read_counters sort_unstable ports_lines port_lines
report = refl

blocks-print_final_report_example :
    Ascending (
      keys (
        blocks
          (print_final_report itself itself gigabytes true (counters 3 2000000020) (some by_port))))
    × Perm
        (blocks
          (print_final_report itself itself gigabytes true (counters 3 2000000020) (some by_port)))
        (mapped (figures itself itself gigabytes) by_port)
blocks-print_final_report_example =
    blocks-print_final_report itself itself gigabytes (counters 3 2000000020) by_port
      ((refl, tt), (tt, tt))

abbrev plus : ℕ → ℕ → ℕ
plus m n = m + n

abbrev reports : List Report
reports = request 80 12 ∷ response 80 40 ∷ request 81 7 ∷ []

print_final_report_sums_example :
    (t : Counters ℕ) × (record_all 0 plus reports
        (record { total = default 0 plus; by_port = init_port_counters 0 plus (80 ∷ 81 ∷ []) [] })
      ≡ some t)
    × ((field : Field)
        → printed_total itself field
            (print_final_report itself itself gigabytes true t.total (some t.by_port))
          ≡ raised 0 plus itself refl (λ m n. refl) reports field)
    × ((field : Field)
        → printed_total itself field
            (print_final_report itself itself gigabytes true t.total (some t.by_port))
          ≡ printed_sum field
              (blocks (print_final_report itself itself gigabytes true t.total (some t.by_port))))
print_final_report_sums_example =
    print_final_report_sums 0 plus itself itself gigabytes refl (λ m n. refl) (80 ∷ 81 ∷ []) reports
      (refl, (refl, (refl, tt)))
