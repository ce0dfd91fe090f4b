-- ===== src/Connections/Counted/Tests.antt =====
-- Two clients whose reports are interleaved; every byte is a request.
use statico.Prelude.{
  ℕ, ◌+◌, ◌≤◌, true, List, [], ◌∷◌, ◌++◌, Option, none, some, ◌≡◌, refl, subst, Bytes, length,
  codes, arith,
}
use mathlib.Core.Option.{none-ne-some, some-injective}
use statico.Http.{Headers}
use statico.Config.{ServerConfig}
use statico.Counters.{Counters, Report, request, response, default, init_port_counters, record_all}
use statico.Counters.Totals.{Field, read, sum}
use statico.Connections.{
  Settings, build_response, handle_connection_compio, handle_connection_uring, serve,
  parse_requests, receive, reset_or_compact,
}
use statico.Connections.Counted.{Client, tokio_uring_ring, compio_ring}
use statico.Connections.Counted.Interleaved.{
  from_first, from_second, none_left, clients_total, record_all-Interleaves,
}

abbrev one_byte : Bytes → Option ℕ
one_byte [] = none
one_byte (c ∷ cs) = some 1

one_byte-bounds : (s : Bytes) (n : ℕ) → one_byte s ≡ some n → (1 ≤ n) × (n ≤ length s)
one_byte-bounds [] n e = absurd (none-ne-some n e)
one_byte-bounds (c ∷ cs) n e =
    subst (λ m. (1 ≤ m) × (m ≤ length (c ∷ cs))) (some-injective 1 n e) (omega arith, omega arith)

one_byte-stable : (s t : Bytes) (n : ℕ) → one_byte s ≡ some n → one_byte (s ++ t) ≡ some n
one_byte-stable [] t n e = absurd (none-ne-some n e)
one_byte-stable (c ∷ cs) t n e = e

abbrev encode_body : ℕ → Headers → Bytes → Option Bytes
encode_body status headers body = some body

abbrev config : ServerConfig ℕ
config = record { status = 200; body = codes "ok"; headers = []; tls = none }

built : build_response encode_body config ≡ some (codes "ok")
unfolding build_response
built = refl

abbrev settings : Settings
settings = record { meter = true; delay = none; verbose = 0 }

abbrev plus : ℕ → ℕ → ℕ
plus m n = m + n

abbrev clients : List Client
clients =
    record { port = 80; ring = tokio_uring_ring; chunks = codes "a" ∷ [] }
    ∷ (record { port = 81; ring = compio_ring; chunks = codes "b" ∷ [] } ∷ [])

abbrev reports : List Report
reports = request 80 1 ∷ (request 81 1 ∷ (response 81 2 ∷ (response 80 2 ∷ [])))

record_all-Interleaves_example :
    (t : Counters ℕ) × (record_all 0 plus reports
        (record { total = default 0 plus; by_port = init_port_counters 0 plus (80 ∷ (81 ∷ [])) [] })
      ≡ some t)
    × ((field : Field)
        → read 0 plus (λ n. n) field t.total
          ≡ clients_total 0 plus
              (λ n. n)
              refl
              (λ m n. refl)
              one_byte
              encode_body
              settings
              config
              (λ k. true)
              one_byte-bounds
              one_byte-stable
              (λ k. refl)
              (codes "ok")
              built
              refl
              (80 ∷ (81 ∷ []))
              field
              clients)
    × ((field : Field) → read 0 plus (λ n. n) field t.total ≡ sum 0 plus (λ n. n) field t.by_port)
unfolding build_response handle_connection_compio handle_connection_uring init_port_counters serve
    parse_requests receive reset_or_compact
record_all-Interleaves_example =
    record_all-Interleaves 0 plus (λ n. n) refl (λ m n. refl) one_byte encode_body settings config
      (λ k. true) one_byte-bounds one_byte-stable (λ k. refl) (codes "ok") built refl
      (80 ∷ (81 ∷ [])) clients reports ((refl, (omega arith, tt)), ((refl, (omega arith, tt)), tt))
      (
        (request 81 1 ∷ (response 81 2 ∷ [])),
        ([], refl, from_first (from_first none_left)),
        from_first (from_second (from_second (from_first none_left))),
      )
