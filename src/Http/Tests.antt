-- ===== src/Http/Tests.antt =====
-- Sizes of small messages.
use statico.Prelude.{
  ℕ, ◌-◌, ◌*◌, decimal, length-decimal, ◌^◌, ◌%◌, ◌≤◌, ◌<◌, ◌≡◌, refl, [], ◌∷◌, Option, some, Bytes,
  codes, length, arith,
}
use statico.Http.{
  Request, Response, http_11, request_head_size, response_head_size, chunked_body_wire_size,
}
use statico.Http.Chunked.{chunked, chunked_body_wire_size-length}
use statico.Http.Heads.{
  request_head, request_head_size-length, response_head, response_head_size-length,
}

chunked_body_wire_size-length_example :
    chunked_body_wire_size 16 ≡ length (chunked (codes "0123456789abcdef"))
chunked_body_wire_size-length_example =
    chunked_body_wire_size-length (codes "0123456789abcdef") (omega arith)

abbrev request : Request
request = record {
  method = codes "GET";
  uri = codes "/";
  version = http_11;
  headers = (codes "host", codes "a") ∷ [];
}

request_head_size-length_example :
    request_head_size request ≡ length (request_head request) % 2 ^ 64
request_head_size-length_example = request_head_size-length request tt (omega arith)

abbrev response : Response
response = record { version = http_11; status = 200; headers = (codes "server", codes "x") ∷ [] }

abbrev reason : ℕ → Option Bytes
reason status = some (codes "OK")

abbrev log10 : ℕ → ℕ
log10 n = length (decimal n) - 1

log10-exact : (k n : ℕ) → n < 2 ^ 32 → 10 ^ k ≤ n → n < 10 ^ k * 10 → log10 n ≡ k
log10-exact k n small l h = omega (arith, length-decimal k n l h)

abbrev now : Bytes
now = codes "Sun, 06 Nov 1994 08:49:37 GMT"

response_head_size-length_example :
    response_head_size reason log10 response 12
    ≡ length (response_head reason log10 now (codes "OK") response 12) % 2 ^ 64
response_head_size-length_example =
    response_head_size-length reason log10 log10-exact now (codes "OK") response 12 refl tt refl
      (omega arith) (omega arith) (omega arith)
