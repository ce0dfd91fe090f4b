-- ===== src/Connections/Counted/Exchanges.antt =====
-- What a connection reports for the exchanges of its requests.
use statico.Prelude.{
  ℕ, ◌+◌, Bool, true, false, List, [], ◌∷◌, ◌++◌, Option, none, some, ◌≡◌, refl, ap, ◌∙◌, Bytes,
  length, All, arith, ltb,
}
use statico.Counters.{Report, request, response, port_of}
use statico.Counters.Keys.{is_elem}
use statico.Counters.Totals.{Field, requests, request_bytes, responses, response_bytes}
use statico.Connections.{
  delayed, Event, Settings, when, delay_event, request_printed, response_printed, request_recorded,
  response_recorded, written,
}
use statico.Connections.Splits.{exchange, exchanges}
use statico.Connections.Counted.{reports_of}

reports_of_append :
    (port : ℕ) (xs ys : List Event)
    → reports_of port (xs ++ ys) ≡ reports_of port xs ++ reports_of port ys
reports_of_append port [] ys = refl
reports_of_append port (request_recorded n ∷ xs) ys =
    ap (◌∷◌ (request port n)) (reports_of_append port xs ys)
reports_of_append port (response_recorded n ∷ xs) ys =
    ap (◌∷◌ (response port n)) (reports_of_append port xs ys)
reports_of_append port (request_printed ∷ xs) ys = reports_of_append port xs ys
reports_of_append port (response_printed ∷ xs) ys = reports_of_append port xs ys
reports_of_append port (delayed d ∷ xs) ys = reports_of_append port xs ys
reports_of_append port (written b ∷ xs) ys = reports_of_append port xs ys

-- The reports of requests of some lengths, each answered with the same number of bytes.
abbrev pub pairs : ℕ → ℕ → List ℕ → List Report
pairs port answer_len [] = []
pairs port answer_len (n ∷ lens) =
    request port n ∷ (response port answer_len ∷ pairs port answer_len lens)

exchange_lem :
    (verbose meter : Bool) (delay : Option ℕ) (port n : ℕ) (answer : Bytes)
    → meter ≡ true
    → reports_of port (
        (when verbose request_printed
          ++ (when meter (request_recorded n)
              ++ (delay_event delay ++ when verbose response_printed)))
        ++ (written answer ∷ when meter (response_recorded (length answer))))
      ≡ pairs port (length answer) (n ∷ [])
exchange_lem true true none port n answer h = refl
exchange_lem true true (some d) port n answer h = refl
exchange_lem false true none port n answer h = refl
exchange_lem false true (some d) port n answer h = refl
exchange_lem verbose false delay port n answer h = absurd (ground arith)

-- What requests of some lengths add to a counter.
abbrev pub amounts : ℕ → Field → List ℕ → ℕ
amounts answer_len field [] = 0
amounts answer_len requests (n ∷ lens) = 1 + amounts answer_len requests lens
amounts answer_len request_bytes (n ∷ lens) = n + amounts answer_len request_bytes lens
amounts answer_len responses (n ∷ lens) = 1 + amounts answer_len responses lens
amounts answer_len response_bytes (n ∷ lens) = answer_len + amounts answer_len response_bytes lens

pub pairs-All :
    (ports : List ℕ) (port answer_len : ℕ) (lens : List ℕ)
    → is_elem port ports ≡ true
    → All (λ r. is_elem (port_of 0 ◌+◌ r) ports ≡ true) (pairs port answer_len lens)
pairs-All ports port answer_len [] e = tt
pairs-All ports port answer_len (n ∷ lens) e = (e, (e, pairs-All ports port answer_len lens e))

module _ (decode : Bytes → Option ℕ) (settings : Settings) (answer : Bytes)
    (metered : settings.meter ≡ true) where
  pub reports_of-exchanges :
      (port : ℕ) (lens : List ℕ)
      → reports_of port (exchanges decode settings answer lens) ≡ pairs port (length answer) lens
  reports_of-exchanges port [] = refl
  reports_of-exchanges port (n ∷ lens) =
      reports_of_append port (exchange decode settings answer n)
        (exchanges decode settings answer lens)
      ∙ (ap (λ xs. xs ++ reports_of port (exchanges decode settings answer lens))
            (exchange_lem (ltb 0 settings.verbose) settings.meter settings.delay port n answer
              metered)
          ∙ ap (λ xs. pairs port (length answer) (n ∷ []) ++ xs) (reports_of-exchanges port lens))
