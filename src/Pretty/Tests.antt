-- ===== src/Pretty/Tests.antt =====
-- Small logs, with the escape sequences of a terminal.
use statico.Prelude.{ℕ, [], ◌∷◌, ◌++◌, ◌≡◌, refl, codes, Bytes, none, some, arith}
use statico.Http.{Version, http_11, Request, Response}
use statico.Pretty.{
  FullRequest, is_ascii_whitespace, format_bytes, format_body, body_section, format_headers,
  format_request, format_response, format_full_request,
}
use statico.Hexdump.{is_ascii_graphic}
use statico.Pretty.Levels.{ShowsBody, with_body, formats-ShowsBody}

abbrev opening : Bytes
opening = codes "[7m"

abbrev closing : Bytes
closing = 27 ∷ codes "[27m"

abbrev reversed : Bytes → Bytes
reversed s = 27 ∷ (opening ++ (s ++ closing))

abbrev version_debug : Version → Bytes
version_debug v = codes "HTTP/1.1"

abbrev status_display : ℕ → Bytes
status_display n = codes "200 OK"

abbrev res : Response
res = record { version = http_11; status = 200; headers = (codes "x-custom", codes "value") ∷ [] }

abbrev req : Request
req = record { method = codes "POST"; uri = codes "/test"; version = http_11; headers = [] }

abbrev full : FullRequest
full = record { method = none; path = some (codes "/"); version = none; headers = []; body = [] }

unprintable_body :
    format_body reversed (88 ∷ (1 ∷ (89 ∷ [])))
    ≡ codes "X" ++ (reversed (codes "01") ++ codes "Y\n")
unfolding format_body format_bytes is_ascii_graphic is_ascii_whitespace
unprintable_body = refl

head_only :
    format_response
      (λ s. s)
      (λ s. s)
      reversed
      version_debug
      status_display
      (λ v. some v)
      2
      res
      (codes "body")
    ≡ codes "HTTP/1.1 200 OK\nx-custom: value\n\n"
unfolding format_response format_headers body_section
head_only = refl

formats-ShowsBody_example :
    ShowsBody 3 5 4
      (codes "hello")
      (format_request (λ s. s) (λ s. s) reversed version_debug status_display (λ v. some v) 4 req)
    × ShowsBody 3 5 4 (codes "hello") (
        format_response (λ s. s) (λ s. s) reversed version_debug status_display (λ v. some v) 4 res)
    × ShowsBody 3 5 4
        (codes "hello")
        (λ b. format_full_request (λ s. s) (λ s. s) reversed (λ s. s) 4 (with_body full b))
formats-ShowsBody_example =
    formats-ShowsBody reversed opening closing (λ s. refl) (λ s. s) (λ s. s) version_debug
      status_display (λ v. some v) (λ s. s) 4 req res full (codes "hello") (omega arith)
