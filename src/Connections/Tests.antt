-- ===== src/Connections/Tests.antt =====
-- Runs of the connection loop, with a parser of requests that each end with a line feed.
use statico.Prelude.{
  Bool, if◌then◌else◌, ℕ, suc, ◌%◌, ◌^◌, ◌≤◌, true, false, List, [], ◌∷◌, ◌++◌, map, concat, Option,
  none, some, ◌≡◌, refl, sym, ◌∙◌, Bytes, length, codes, ◌==◌, arith, Bool-cases, Option-cases, inl,
  inr, zero, ◌+◌, take, ap, subst, length-take, length-append, take-length_append,
}
use mathlib.Core.Option.{none-ne-some, some-injective}
use statico.Http.{Headers}
use statico.Config.{ServerConfig}
use statico.Connections.{
  Connection, closed, failed, waiting, before_write, serve, start, Settings,
  handle_connection_uring, handle_connection_monoio, handle_connection_glommio,
  handle_connection_compio, build_response,
}
use statico.Connections.Splits.{exchanges, answered, serve-answered}
use statico.Connections.Requests.{requests}
use statico.Connections.Writes.{serve-waits}
use statico.Connections.Buffers.{pending}
use statico.Connections.Memory.{Memory, capacity, view, serve_buffered, start_buffered}
use statico.Connections.Memory.Views.{IsSound}
use statico.Connections.Memory.Refines.{Delivers, IsBounded, serve_buffered-serve}
use statico.Connections.Handlers.{handle_connection-requests}

abbrev step_over : Option ℕ → Option ℕ
step_over none = none
step_over (some n) = some (suc n)

abbrev line_length : Bytes → Option ℕ
line_length [] = none
line_length (c ∷ cs) = elim (c == 10) [ true ↦ some 1 | false ↦ step_over (line_length cs) ]

line_length-bounds : (s : Bytes) (n : ℕ) → line_length s ≡ some n → (1 ≤ n) × (n ≤ length s)
line_length-bounds [] n e = absurd (none-ne-some n e)
line_length-bounds (c ∷ cs) n e = elim (Bool-cases (c == 10)) [
  | inl y ↦ let one : 1 ≡ n = some-injective 1 n (sym (rw (line_length, y) refl) ∙ e) in omega arith
  | inr m ↦ elim (Option-cases (line_length cs)) [
    | inl f ↦ absurd (none-ne-some n (sym (rw (line_length, m, f) refl) ∙ e))
    | inr (k, f) ↦
        let more : suc k ≡ n = some-injective (suc k) n (sym (rw (line_length, m, f) refl) ∙ e) in
        omega (arith, (line_length-bounds cs k f).0, (line_length-bounds cs k f).1)
  ]
]

line_length-stable : (s t : Bytes) (n : ℕ) → line_length s ≡ some n → line_length (s ++ t) ≡ some n
line_length-stable [] t n e = absurd (none-ne-some n e)
line_length-stable (c ∷ cs) t n e = elim (Bool-cases (c == 10)) [
  | inl y ↦
      let before : line_length (c ∷ cs) ≡ some 1 = rw (line_length, y) refl in
      let after : line_length (c ∷ (cs ++ t)) ≡ some 1 = rw (line_length, y) refl in
      after ∙ (sym before ∙ e)
  | inr m ↦ elim (Option-cases (line_length cs)) [
    | inl f ↦ absurd (none-ne-some n (sym (rw (line_length, m, f) refl) ∙ e))
    | inr (k, f) ↦
        let before : line_length (c ∷ cs) ≡ some (suc k) = rw (line_length, m, f) refl in
        let after : line_length (c ∷ (cs ++ t)) ≡ some (suc k) =
          rw (line_length, m, line_length-stable cs t k f) refl in
        after ∙ (sym before ∙ e)
  ]
]

abbrev encode_body : ℕ → Headers → Bytes → Option Bytes
encode_body status headers body = some body

abbrev config : ServerConfig ℕ
config = record { status = 200; body = codes "ok"; headers = []; tls = none }

abbrev settings : Settings
settings = record { meter = true; delay = none; verbose = 0 }

abbrev chunks : List Bytes
chunks = codes "ab" ∷ codes "\nc\nd" ∷ []

built : build_response encode_body config ≡ some (codes "ok")
unfolding build_response
built = refl

handle_connection-requests_example :
    (d : Connection) × (handle_connection_uring line_length encode_body settings config
        (λ k. true)
        (λ port. port == 80)
        (map some chunks ++ (some [] ∷ []))
        80
        false
      ≡ closed d)
    × (handle_connection_monoio line_length encode_body settings config
          (λ k. true)
          (λ port. port == 80)
          (map some chunks ++ (some [] ∷ []))
          80
          false
        ≡ closed d)
    × (handle_connection_glommio line_length encode_body settings config
          (λ k. true)
          (λ port. port == 80)
          (map some chunks ++ (some [] ∷ []))
          80
          false
        ≡ closed d)
    × (handle_connection_compio line_length encode_body settings config
          (λ k. true)
          (λ port. port == 80)
          (map some chunks ++ (some [] ∷ []))
          80
        ≡ closed d)
    × (d.requests_served ≡ length (requests line_length (concat chunks)) % 2 ^ 64)
    × (d.events
        ≡ exchanges line_length settings (codes "ok") (requests line_length (concat chunks)))
handle_connection-requests_example =
    handle_connection-requests line_length encode_body settings config (λ k. true)
      line_length-bounds line_length-stable (λ k. refl) (λ port. port == 80) 80 (codes "ok") chunks
      refl built (omega arith, (omega arith, tt))

two_requests : requests line_length (concat chunks) ≡ 3 ∷ 2 ∷ []
two_requests = refl

serve-waits_example :
    (d : Connection) × (serve line_length settings (codes "ok") (λ k. true) (map some chunks) start
      ≡ waiting d)
    × (line_length (pending d) ≡ none)
    × (d.requests_served ≡ length (requests line_length (concat chunks)) % 2 ^ 64)
    × (d.events
        ≡ exchanges line_length settings (codes "ok") (requests line_length (concat chunks)))
serve-waits_example =
    serve-waits line_length settings (codes "ok") (λ k. true) line_length-bounds line_length-stable
      (λ k. refl) chunks (omega arith, (omega arith, tt))

-- The second write fails.
abbrev first_only : ℕ → Bool
first_only k = k == 0

serve-answered_example :
    let a =
      answered line_length settings
        (codes "ok")
        first_only
        0
        (requests line_length (concat chunks)) in
    (d : Connection) × (serve line_length settings
        (codes "ok")
        first_only
        (map some chunks ++ (some [] ∷ []))
        start
      ≡ (if a.alive then closed d else failed d))
    × (d.requests_served ≡ a.begun % 2 ^ 64)
    × (d.events ≡ a.events)
serve-answered_example =
    serve-answered line_length settings (codes "ok") first_only line_length-bounds
      line_length-stable chunks (omega arith, (omega arith, tt))

fails_at_second : answered line_length settings (codes "ok") first_only 0 (3 ∷ (2 ∷ [])) ≡ record {
  events = exchanges line_length settings (codes "ok") (3 ∷ []) ++ before_write settings 2;
  begun = 2;
  alive = false;
}
fails_at_second = refl

abbrev zeros : ℕ → Bytes
zeros zero = []
zeros (suc n) = 0 ∷ zeros n

length-zeros : (n : ℕ) → length (zeros n) ≡ n
length-zeros zero = refl
length-zeros (suc n) = ap suc (length-zeros n)

-- A new allocation with the bytes in use in front.
abbrev reserve : ℕ → Memory → Memory
reserve n m = record { bytes = view m ++ zeros (m.len + n); len = m.len }

reserve-view : (n : ℕ) (m : Memory) → IsSound m → view (reserve n m) ≡ view m
reserve-view n m sound =
    ap (λ k. take k (view m ++ zeros (m.len + n))) (sym (length-take m.len m.bytes sound))
    ∙ take-length_append (view m) (zeros (m.len + n))

reserve-capacity : (n : ℕ) (m : Memory) → m.len + n ≤ capacity (reserve n m)
reserve-capacity n m =
    omega (arith, length-append (view m) (zeros (m.len + n)), length-zeros (m.len + n))

length-take-at_most : (n : ℕ) (xs : Bytes) → length (take n xs) ≤ n
length-take-at_most zero xs = omega arith
length-take-at_most (suc n) [] = omega arith
length-take-at_most (suc n) (x ∷ xs) = omega (arith, length-take-at_most n xs)

-- The kernel delivers what it has, as far as there is room.
abbrev kernel : Bytes → ℕ → Option Bytes
kernel data_bytes cap = some (take cap data_bytes)

kernel-IsBounded : (data_bytes : Bytes) → IsBounded (kernel data_bytes)
kernel-IsBounded data_bytes cap b e =
    subst (λ c. length c ≤ cap) (some-injective _ _ e) (length-take-at_most cap data_bytes)

serve_buffered-serve_example :
    (reads : List (Option Bytes)) × Delivers
      (kernel (codes "ab") ∷ (kernel (codes "\nc\nd") ∷ []))
      reads
    × (serve_buffered reserve line_length settings
          (codes "ok")
          (λ k. true)
          (kernel (codes "ab") ∷ (kernel (codes "\nc\nd") ∷ []))
          (start_buffered (record { bytes = zeros 8; len = 0 }))
        ≡ some (serve line_length settings (codes "ok") (λ k. true) reads start))
serve_buffered-serve_example =
    serve_buffered-serve line_length settings (codes "ok") (λ k. true) line_length-bounds reserve
      reserve-view (λ n m. refl) reserve-capacity
      (kernel (codes "ab") ∷ (kernel (codes "\nc\nd") ∷ [])) (zeros 8)
      (kernel-IsBounded (codes "ab"), (kernel-IsBounded (codes "\nc\nd"), tt))
