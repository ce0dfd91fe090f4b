-- ===== src/Http/Heads.antt =====
-- The sizes of the heads of src/http.rs, against the text of HTTP/1 heads with these lines.
use statico.Prelude.{
  ℕ, zero, suc, ◌+◌, ◌*◌, ◌%◌, ◌^◌, ◌≤◌, ◌<◌, Bool, false, not, ◌&&◌, ◌||◌, [], ◌∷◌, ◌++◌, Option,
  some, ◌≡◌, refl, Bytes, length, length-append, arith, ltb, ◌/◌, ◌==◌, decimal, length-decimal,
  codes, if◌then◌else◌, Bool-cases, inl, inr,
}
use native.Mathlib.Nat.{pow-suc, pow-zero}
use statico.Http.{
  Version, http_09, http_10, http_11, http_2, http_3, Headers, Request, Response, http_version_len,
  headers_size, request_head_size, contains_key, can_have_content_length, reason_len,
  added_length_size, response_head_size,
}
use statico.Http.Chunked.{crlf}

-- The versions whose heads are text with a version in it and headers.
abbrev pub IsHttp1 : Version → Type 0
IsHttp1 http_10 = Unit
IsHttp1 http_11 = Unit
IsHttp1 _ = ⊥

-- The text of such a version in a head.
abbrev pub version_text : Version → Bytes
version_text http_10 = codes "HTTP/1.0"
version_text http_11 = codes "HTTP/1.1"
version_text _ = []

abbrev pub space : Bytes
space = 32 ∷ []

abbrev pub line : Bytes → Bytes → Bytes
line name value = name ++ (codes ": " ++ (value ++ crlf))

abbrev pub lines : Headers → Bytes
lines [] = []
lines ((name, value) ∷ headers) = line name value ++ lines headers

-- The head of a request: its request line, its headers and an empty line.
abbrev pub request_head : Request → Bytes
request_head req =
    req.method
    ++ (space
        ++ (req.uri
            ++ (space ++ (version_text req.version ++ (crlf ++ (lines req.headers ++ crlf))))))

length-version_text : (v : Version) → IsHttp1 v → length (version_text v) ≡ http_version_len v
unfolding http_version_len
length-version_text http_10 h = refl
length-version_text http_11 h = refl
length-version_text http_09 h = absurd h
length-version_text http_2 h = absurd h
length-version_text http_3 h = absurd h

length-line : (name value : Bytes) → length (line name value) ≡ length name + 2 + length value + 2
length-line name value = omega (
  arith,
  length-append name (codes ": " ++ (value ++ crlf)),
  length-append (codes ": ") (value ++ crlf),
  length-append value crlf,
)

length-lines : (headers : Headers) → length (lines headers) % 2 ^ 64 ≡ headers_size headers
unfolding headers_size
length-lines [] = omega arith
length-lines ((name, value) ∷ headers) = omega (
  arith,
  length-append (line name value) (lines headers),
  length-line name value,
  length-lines headers,
)

-- For every request of HTTP/1.0 or HTTP/1.1 whose URI is written with at least one character, the
-- computed size is the length of an HTTP/1 head, modulo 2^64: the request line with that URI, a line
-- for each header and an empty line.
pub request_head_size-length :
    (req : Request)
    → IsHttp1 req.version
    → 1 ≤ length req.uri
    → request_head_size req ≡ length (request_head req) % 2 ^ 64
unfolding request_head_size
request_head_size-length req v h =
    let written : (length req.uri == 0) ≡ false = ground arith in
    let after_version = crlf ++ (lines req.headers ++ crlf) in
    let after_uri = space ++ (version_text req.version ++ after_version) in
    rw written (
      omega (
        arith,
        length-append req.method (space ++ (req.uri ++ after_uri)),
        length-append req.uri after_uri,
        length-append (version_text req.version) after_version,
        length-version_text req.version v,
        length-append (lines req.headers) crlf,
        length-lines req.headers,
      ))

length-decimal_zero : length (decimal 0) ≡ 1
unfolding decimal
length-decimal_zero = refl

-- Every positive number lies between two consecutive powers of ten.
power_below : (fuel n : ℕ) → n ≤ fuel → 1 ≤ n → (k : ℕ) × (10 ^ k ≤ n) × (n < 10 ^ k * 10)
power_below zero n f p = absurd (omega arith)
power_below (suc fuel) n f p = elim (Bool-cases (ltb n 10)) [
  | inl y ↦ (0, omega (arith, p, pow-zero 10), ground (arith, y, pow-zero 10))
  | inr m ↦
      let big : 10 ≤ n = ground arith in
      let rec = power_below fuel (n / 10) (omega arith) (omega arith) in
      (suc rec.0, omega (arith, rec.1, pow-suc 10 rec.0), omega (arith, rec.2, pow-suc 10 rec.0))
]

module _ (canonical_reason : ℕ → Option Bytes) (log10_floor : ℕ → ℕ) where
  -- The statuses, from 200 on, whose responses name no length.
  abbrev pub is_bodyless : ℕ → Bool
  is_bodyless status = status == 204 || status == 304

  -- The lines that are added: a date when there is none, and the body's length in decimal when the
  -- status allows it and the headers name no length and no transfer encoding.
  abbrev pub date_line : Bytes → Response → Bytes
  date_line now res =
      if contains_key (codes "date") res.headers then [] else line (codes "date") now

  abbrev pub needs_content_length : Response → Bool
  needs_content_length res =
      not (is_bodyless res.status)
      && (not (contains_key (codes "content-length") res.headers)
          && not (contains_key (codes "transfer-encoding") res.headers))

  abbrev pub content_length_line : Response → ℕ → Bytes
  content_length_line res body_len =
      if needs_content_length res then line (codes "content-length") (decimal body_len) else []

  abbrev pub status_line : Bytes → Response → Bytes
  status_line reason res =
      version_text res.version ++ (space ++ (decimal res.status ++ (space ++ (reason ++ crlf))))

  -- An HTTP/1 head of a response, with a reason phrase and the date `now`.
  abbrev pub response_head : Bytes → Bytes → Response → ℕ → Bytes
  response_head now reason res body_len =
      status_line reason res
      ++ (lines res.headers ++ (date_line now res ++ (content_length_line res body_len ++ crlf)))

  length-status_line :
      (reason : Bytes) (res : Response)
      → IsHttp1 res.version
      → canonical_reason res.status ≡ some reason
      → 200 ≤ res.status
      → res.status < 1000
      → length (status_line reason res)
        ≡ http_version_len res.version
          + 1
          + 3
          + 1
          + reason_len canonical_reason log10_floor res.status
          + 2
  length-status_line reason res v named low high =
      let after_status = space ++ (reason ++ crlf) in
      rw (named, reason_len)
        (omega (
          arith,
          length-append (version_text res.version) (space ++ (decimal res.status ++ after_status)),
          length-version_text res.version v,
          length-append (decimal res.status) after_status,
          length-decimal 2 res.status (omega (arith, low)) high,
          length-append reason crlf,
        ))

  has_length :
      (status : ℕ) → 200 ≤ status → can_have_content_length status ≡ not (is_bodyless status)
  unfolding can_have_content_length
  has_length status low = ground arith

  length-date_line :
      (now : Bytes) (res : Response)
      → length now ≡ 29
      → length (date_line now res)
        ≡ (if not (contains_key (codes "date") res.headers) then 4 + 2 + 29 + 2 else 0)
  length-date_line now res h = elim (Bool-cases (contains_key (codes "date") res.headers)) [
    | inl y ↦ rw y refl
    | inr m ↦ rw m (omega (arith, length-line (codes "date") now))
  ]

  module _
      (log10_floor-exact : (k n : ℕ)
        → n < 2 ^ 32
        → 10 ^ k ≤ n
        → n < 10 ^ k * 10
        → log10_floor n ≡ k) where
    length-decimal_log : (n : ℕ) → 1 ≤ n → n < 2 ^ 32 → length (decimal n) ≡ log10_floor n + 1
    length-decimal_log n p h =
        let power = power_below n n (omega arith) p in
        omega (
          arith,
          log10_floor-exact power.0 n h power.1 power.2,
          length-decimal power.0 n power.1 power.2,
        )

    length-content_length_line :
        (res : Response) (body_len : ℕ)
        → 200 ≤ res.status
        → body_len < 2 ^ 32
        → length (content_length_line res body_len)
          ≡ added_length_size canonical_reason log10_floor res body_len
    unfolding added_length_size
    length-content_length_line res body_len low h =
        rw (has_length res.status low) (elim (Bool-cases (needs_content_length res)) [
          | inr m ↦ rw m refl
          | inl y ↦ rw y (elim (Bool-cases (body_len == 0)) [
            | inl z ↦
                let nothing : body_len ≡ 0 = ground arith in
                rw nothing (
                  omega
                    (arith, length-line (codes "content-length") (decimal 0), length-decimal_zero))
            | inr s ↦
                let more : 1 ≤ body_len = ground arith in
                rw s (
                  omega (
                    arith,
                    length-line (codes "content-length") (decimal body_len),
                    length-decimal_log body_len more h,
                  ))
          ])
        ])

    -- For every response of HTTP/1.0 or HTTP/1.1 with a status from 200 to 999 that has a reason phrase
    -- and every body below 2^32 bytes, the computed size is the length of an HTTP/1 head, modulo 2^64,
    -- when a date has 29 characters and the floating-point logarithm counts the digits of the numbers
    -- below 2^32. That head is the status line with that phrase, a line for each header, a date if they
    -- name none, the body's length in decimal if they name neither a length nor a transfer encoding
    -- and the status is neither 204 nor 304, and an empty line.
    pub response_head_size-length :
        (now reason : Bytes) (res : Response) (body_len : ℕ)
        → length now ≡ 29
        → IsHttp1 res.version
        → canonical_reason res.status ≡ some reason
        → 200 ≤ res.status
        → res.status < 1000
        → body_len < 2 ^ 32
        → response_head_size canonical_reason log10_floor res body_len
          ≡ length (response_head now reason res body_len) % 2 ^ 64
    unfolding response_head_size
    response_head_size-length now reason res body_len date v named low high h =
        let added = content_length_line res body_len ++ crlf in
        let tail = date_line now res ++ added in
        omega (
          arith,
          length-append (status_line reason res) (lines res.headers ++ tail),
          length-status_line reason res v named low high,
          length-append (lines res.headers) tail,
          length-lines res.headers,
          length-append (date_line now res) added,
          length-date_line now res date,
          length-append (content_length_line res body_len) crlf,
          length-content_length_line res body_len low h,
        )
