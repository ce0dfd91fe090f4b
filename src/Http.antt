-- ===== src/Http.antt =====
-- src/http.rs: the sizes that are counted for a request and a response of HTTP/1.
-- All sums are of `usize`, which wraps in the release profile: the last `%` stands for all of them,
-- since the wrap-around of a sum does not depend on where it is taken. The reason phrase of a
-- status (crate http) and the floor of a decimal logarithm in floating point are parameters.
pub mod Chunked
pub mod Heads
mod Tests
use statico.Prelude.{
  ℕ, zero, suc, ◌+◌, ◌-◌, ◌*◌, ◌/◌, ◌%◌, ◌^◌, Bool, true, false, not, ◌&&◌, ◌||◌, List, [], ◌∷◌,
  Option, none, some, Bytes, length, ltb, ◌==◌, if◌then◌else◌, equal, codes,
}

pub data Version : Type 0 where
  http_09 http_10 http_11 http_2 http_3 : Version

abbrev pub Headers : Type 0
Headers = List (Bytes × Bytes)

pub record Request : Type 0 where
  pub method : Bytes
  pub uri : Bytes
  pub version : Version
  pub headers : Headers

pub record Response : Type 0 where
  pub version : Version
  pub status : ℕ
  pub headers : Headers

unfoldable pub http_version_len : Version → ℕ
http_version_len http_09 = 8
http_version_len http_10 = 8
http_version_len http_11 = 8
http_version_len http_2 = 6
http_version_len http_3 = 6

-- `request_headers_size` and `response_headers_size`: the loop over the headers.
unfoldable pub headers_size : Headers → ℕ
headers_size [] = 0
headers_size ((name, value) ∷ headers) =
    (length name + 2 + length value + 2 + headers_size headers) % 2 ^ 64

unfoldable pub request_head_size : Request → ℕ
request_head_size req =
    let uri_len = if length req.uri == 0 then 1 else length req.uri in
    (length req.method
      + 1
      + uri_len
      + 1
      + http_version_len req.version
      + 2
      + headers_size req.headers
      + 2)
    % 2 ^ 64

-- `headers.contains_key(name)`: a header map keeps its names in lower case.
unfoldable pub contains_key : Bytes → Headers → Bool
contains_key key [] = false
contains_key key ((name, value) ∷ headers) = equal name key || contains_key key headers

abbrev pub date_value_length : ℕ
date_value_length = 29

unfoldable pub can_have_content_length : ℕ → Bool
can_have_content_length status = not (ltb status 200 || (status == 204 || status == 304))

module _ (canonical_reason : ℕ → Option Bytes) (log10_floor : ℕ → ℕ) where
  abbrev pub reason_len : ℕ → ℕ
  reason_len status = elim (canonical_reason status) [ none ↦ 0 | some reason ↦ length reason ]

  -- The header that Hyper adds for the body's length.
  unfoldable pub added_length_size : Response → ℕ → ℕ
  added_length_size res body_len =
      if can_have_content_length res.status
        && (not (contains_key (codes "content-length") res.headers)
            && not (contains_key (codes "transfer-encoding") res.headers))
      then (if body_len == 0 then 14 + 2 + 1 + 2 else 14 + 2 + (log10_floor body_len + 1) + 2)
      else 0

  unfoldable pub response_head_size : Response → ℕ → ℕ
  unfolding added_length_size
  response_head_size res body_len =
      let status_line = http_version_len res.version + 1 + 3 + 1 + reason_len res.status + 2 in
      let date =
        if not (contains_key (codes "date") res.headers)
        then 4 + 2 + date_value_length + 2
        else 0 in
      (status_line + headers_size res.headers + date + added_length_size res body_len + 2) % 2 ^ 64

-- `u64::leading_zeros`, over the `width` lowest bits.
unfoldable pub leading_zeros : ℕ → ℕ → ℕ
leading_zeros zero n = 0
leading_zeros (suc width) n = if ltb n (2 ^ width) then suc (leading_zeros width n) else 0

unfoldable pub chunked_body_wire_size : ℕ → ℕ
chunked_body_wire_size body_len =
    if body_len == 0
    then 5
    else (let bits_used = 64 - leading_zeros 64 body_len in
        let hex_digits = (bits_used + 3) / 4 in (hex_digits + body_len + 9) % 2 ^ 64)
