-- ===== src/Http/Chunked.antt =====
-- The size of a chunked body, against its encoding.
use statico.Prelude.{
  ℕ, zero, suc, ◌+◌, ◌-◌, ◌*◌, ◌/◌, ◌%◌, ◌^◌, ◌≤◌, ◌<◌, false, [], ◌∷◌, ◌++◌, ◌≡◌, refl, ap, ◌∙◌,
  Bytes, length, length-append, arith, ltb, ◌==◌, hex, length-hex, Bool-cases, inl, inr,
}
use native.Mathlib.Nat.{pow-suc, pow-zero}
use statico.Http.{leading_zeros, chunked_body_wire_size}

abbrev pub crlf : Bytes
crlf = 13 ∷ 10 ∷ []

-- One chunk, and a body as one chunk with the closing empty one. An empty body has no chunk.
abbrev pub chunk : Bytes → Bytes
chunk data_bytes = hex (length data_bytes) ++ (crlf ++ (data_bytes ++ crlf))

abbrev pub last_chunk : Bytes
last_chunk = b'0' ∷ (crlf ++ crlf)

abbrev pub chunked : Bytes → Bytes
chunked [] = last_chunk
chunked (c ∷ body) = chunk (c ∷ body) ++ last_chunk

-- A positive number below 2 ^ width lies between two powers of two that its leading zeros tell.
leading_zeros_bounds :
    (width n : ℕ)
    → 1 ≤ n
    → n < 2 ^ width
    → (leading_zeros width n < width)
      × (2 ^ (width - leading_zeros width n - 1) ≤ n)
      × (n < 2 ^ (width - leading_zeros width n - 1) * 2)
unfolding leading_zeros
leading_zeros_bounds zero n p h = absurd (omega (arith, pow-zero 2))
leading_zeros_bounds (suc width) n p h = elim (Bool-cases (ltb n (2 ^ width))) [
  | inl y ↦
      let below : n < 2 ^ width = ground arith in
      let rec = leading_zeros_bounds width n p below in
      let same : suc width - suc (leading_zeros width n) - 1 ≡ width - leading_zeros width n - 1 =
        omega arith in
      rw (y, same) (omega (arith, rec.0), rec.1, rec.2)
  | inr m ↦
      let above : 2 ^ width ≤ n = ground arith in
      let same : suc width - 0 - 1 ≡ width = omega arith in
      rw (m, same) (omega arith, above, omega (arith, h, pow-suc 2 width))
]

-- 2 ^ (4 q + r) by its hexadecimal digits.
pow-4 : (n : ℕ) → 2 ^ suc (suc (suc (suc n))) ≡ 2 ^ n * 16
pow-4 n =
    omega (
      arith,
      pow-suc 2 (suc (suc (suc n))),
      pow-suc 2 (suc (suc n)),
      pow-suc 2 (suc n),
      pow-suc 2 n,
    )

four : ℕ → ℕ → ℕ
four zero r = r
four (suc q) r = suc (suc (suc (suc (four q r))))

four_lem : (q r : ℕ) → four q r ≡ 4 * q + r
unfolding four
four_lem zero r = omega arith
four_lem (suc q) r = omega (arith, four_lem q r)

pow-four : (q r : ℕ) → 2 ^ four q r ≡ 16 ^ q * 2 ^ r
unfolding four
pow-four zero r = omega (arith, pow-zero 16)
pow-four (suc q) r =
    omega (arith, pow-4 (four q r), pow-four q r, ap (λ (t : ℕ). t * 2 ^ r) (pow-suc 16 q))

small_pow : (r : ℕ) → r < 4 → (1 ≤ 2 ^ r) × (2 ^ r ≤ 8)
small_pow zero h = omega arith
small_pow (suc zero) h = omega arith
small_pow (suc (suc zero)) h = omega arith
small_pow (suc (suc (suc zero))) h = omega arith
small_pow (suc (suc (suc (suc r)))) h = absurd (omega arith)

-- A number between 2 ^ e and 2 ^ (e + 1) has e / 4 + 1 hexadecimal digits.
length-hex_pow : (e n : ℕ) → 2 ^ e ≤ n → n < 2 ^ e * 2 → length (hex n) ≡ suc (e / 4)
length-hex_pow e n l h =
    let split : e ≡ four (e / 4) (e % 4) = omega (arith, four_lem (e / 4) (e % 4)) in
    let power : 2 ^ e ≡ 16 ^ (e / 4) * 2 ^ (e % 4) =
      ap (λ t. 2 ^ t) split ∙ pow-four (e / 4) (e % 4) in
    let small = small_pow (e % 4) (omega arith) in
    length-hex (e / 4) n (grind (arith, power, small.0)) (grind (arith, power, small.1))

chunk_size :
    (body : Bytes)
    → length (chunk body ++ last_chunk) ≡ length (hex (length body)) + length body + 9
chunk_size body = omega (
  arith,
  length-append (chunk body) last_chunk,
  length-append (hex (length body)) (crlf ++ (body ++ crlf)),
  length-append body crlf,
)

-- For every body below 2^63 bytes the computed size is the length of its chunked encoding.
pub chunked_body_wire_size-length :
    (body : Bytes)
    → length body < 2 ^ 63
    → chunked_body_wire_size (length body) ≡ length (chunked body)
unfolding chunked_body_wire_size
chunked_body_wire_size-length [] h = refl
chunked_body_wire_size-length (c ∷ body) h =
    let n : ℕ = suc (length body) in
    let lz = leading_zeros 64 n in
    let bounds = leading_zeros_bounds 64 n (omega arith) (omega arith) in
    let digits = length-hex_pow (64 - lz - 1) n bounds.1 bounds.2 in
    let quarter : (64 - lz + 3) / 4 ≡ suc ((64 - lz - 1) / 4) = omega (arith, bounds.0) in
    let size : length (chunked (c ∷ body)) ≡ length (hex n) + n + 9 = chunk_size (c ∷ body) in
    let test : (n == 0) ≡ false = ground arith in
    let few : length (hex n) ≤ 64 = omega (arith, digits) in
    rw test (omega (arith, size, digits, quarter, few))
