-- ===== src/Static/Tests.antt =====
-- Runs of the two services.
use statico.Prelude.{
  ℕ, true, false, [], ◌∷◌, ◌++◌, Option, none, some, ◌⊎◌, inl, inr, refl, Bytes, length, decimal,
  ◌-◌, codes,
}
use statico.Http.{Headers, Version, http_11, Request}
use statico.Config.{ServerConfig}
use statico.Static.{ServiceOptions}
use statico.Static.Answers.{AnswersAs, tokio, smol, tokio_service-smol_service}

abbrev append : Bytes → Bytes → Headers → Option Headers
append k v headers = some (headers ++ ((k, v) ∷ []))

abbrev service : ServiceOptions ℕ
service = record { verbose = 3; delay = some 100; body_delay = none; meter = true }

abbrev silent : ServiceOptions ℕ
silent = record { verbose = 0; delay = none; body_delay = none; meter = false }

abbrev config : ServerConfig ℕ
config = record {
  status = 200;
  body = codes "hello";
  headers = (codes "x-a", codes "b") ∷ [];
  tls = none;
}

abbrev req : Request
req = record { method = codes "GET"; uri = codes "/"; version = http_11; headers = [] }

abbrev incoming : Bytes ⊎ (Bytes × Option Headers)
incoming = inr (codes "abc", none)

abbrev failed : Bytes ⊎ (Bytes × Option Headers)
failed = inl (codes "reset")

abbrev version_debug : Version → Bytes
version_debug v = codes "HTTP/1.1"

abbrev log10 : ℕ → ℕ
log10 n = length (decimal n) - 1

abbrev now : Bytes
now = codes "Sun, 06 Nov 1994 08:49:37 GMT"

abbrev reason_of : ℕ → Option Bytes
reason_of status = some (codes "OK")

-- A run with a delay of the body.
abbrev late : ServiceOptions ℕ
late = record { verbose = 3; delay = some 100; body_delay = some 7; meter = true }

tokio_service-smol_service_example :
    AnswersAs
      (some 7)
      (tokio
        (λ n. none)
        (λ n. 0)
        (λ s. s)
        (λ s. s)
        (λ s. s)
        version_debug
        (λ n. codes "200 OK")
        (λ v. some v)
        (λ b. b)
        (λ d. d)
        append
        late
        config
        req
        incoming)
      (smol
        (λ n. none)
        (λ n. 0)
        (λ s. s)
        (λ s. s)
        (λ s. s)
        version_debug
        (λ n. codes "200 OK")
        (λ v. some v)
        (λ b. b)
        (λ d. d)
        append
        late
        config
        req
        incoming)
tokio_service-smol_service_example =
    tokio_service-smol_service (λ n. none) (λ n. 0) (λ s. s) (λ s. s) (λ s. s) version_debug
      (λ n. codes "200 OK") (λ v. some v) (λ b. b) (λ d. d) append late config req incoming refl
