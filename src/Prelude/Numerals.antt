-- ===== src/Prelude/Numerals.antt =====
-- Numbers in a base, most significant digit first, as `{}`, `{:x}` and hyper print them.
use Prim.Native.Nat.{ℕ, zero, suc, ◌+◌, ◌-◌, ◌*◌, ◌/◌, ◌%◌, ◌^◌, ◌≤◌, ◌<◌}
use mathlib.Core.Path.{◌≡◌, refl, ap}
use mathlib.Core.Logic.{inl, inr}
use mathlib.Core.List.{[], ◌∷◌, ◌++◌}
use native.Mathlib.Omega.{arith}
use native.Mathlib.Nat.{pow-suc, pow-zero}
use statico.Prelude.Tests.{ltb, if◌then◌else◌, Bool-cases}
use statico.Prelude.Lists.{length, length-append, All, All-append}
use statico.Prelude.Texts.{Bytes}

-- A digit below 16 as an ASCII character, in lower case.
abbrev pub digit : ℕ → ℕ
digit d = if ltb d 10 then b'0' + d else b'a' + (d - 10)

-- A number is more than enough fuel for its own digits.
numeral : ℕ → ℕ → ℕ → Bytes
numeral base zero n = digit n ∷ []
numeral base (suc fuel) n =
    let front = numeral base fuel (n / base) in
    if ltb n base then digit n ∷ [] else front ++ (digit (n % base) ∷ [])

-- `{}`
unfoldable pub decimal : ℕ → Bytes
unfolding numeral
decimal n = numeral 10 n n

-- `{:x}`
unfoldable pub hex : ℕ → Bytes
unfolding numeral
hex n = numeral 16 n n

pow_pos : (b k : ℕ) → 1 ≤ b → 1 ≤ b ^ k
pow_pos b zero h = omega (arith, pow-zero b)
pow_pos b (suc k) h = grind (arith, pow-suc b k, pow_pos b k h)

module _ (b : ℕ) (big : 2 ≤ b) (div_le : (n m : ℕ) → m * b ≤ n → m ≤ n / b)
    (div_lt : (n m : ℕ) → n < m * b → n / b < m) where
  -- A number from b ^ k up to b ^ (k + 1) has k + 1 digits.
  length-numeral :
      (k fuel n : ℕ) → n ≤ fuel → b ^ k ≤ n → n < b ^ k * b → length (numeral b fuel n) ≡ suc k
  unfolding numeral
  length-numeral zero zero n f l h = refl
  length-numeral zero (suc fuel) n f l h =
      let one : n < b = omega (arith, h, ap (λ (t : ℕ). t * b) (pow-zero b)) in ground arith
  length-numeral (suc k) zero n f l h = absurd (omega (arith, pow_pos b (suc k) (omega arith)))
  length-numeral (suc k) (suc fuel) n f l h =
      let low : b ^ k ≤ n / b = div_le n (b ^ k) (omega (arith, pow-suc b k)) in
      let high : n / b < b ^ k * b =
        div_lt n (b ^ k * b) (omega (arith, h, ap (λ (t : ℕ). t * b) (pow-suc b k))) in
      let some_front : 1 ≤ n / b = omega (arith, pow_pos b k (omega arith)) in
      let above : b ≤ n = grind (arith, pow-suc b k, pow_pos b k) in
      let small : n / b ≤ fuel =
        (let more : n < n * b = grind (arith, big) in omega (arith, div_lt n n more)) in
      ground (
        arith,
        length-append (numeral b fuel (n / b)) (digit (n % b) ∷ []),
        length-numeral k fuel (n / b) small low high,
      )

  -- Below b ^ (k + 1) there are at most k + 1 digits.
  length-numeral-le : (k fuel n : ℕ) → n ≤ fuel → n < b ^ k * b → length (numeral b fuel n) ≤ suc k
  unfolding numeral
  length-numeral-le k zero n f h = omega arith
  length-numeral-le zero (suc fuel) n f h =
      let one : n < b = omega (arith, h, ap (λ (t : ℕ). t * b) (pow-zero b)) in ground arith
  length-numeral-le (suc k) (suc fuel) n f h =
      let high : n / b < b ^ k * b =
        div_lt n (b ^ k * b) (omega (arith, h, ap (λ (t : ℕ). t * b) (pow-suc b k))) in
      elim (Bool-cases (ltb n b)) [
        | inl y ↦ rw (numeral, y) (omega arith)
        | inr m ↦
            let small : n / b ≤ fuel =
              (let more : n < n * b = grind (arith, big) in omega (arith, div_lt n n more)) in
            rw (numeral, m)
              (omega (
                arith,
                length-append (numeral b fuel (n / b)) (digit (n % b) ∷ []),
                length-numeral-le k fuel (n / b) small high,
              ))
      ]

pub length-decimal : (k n : ℕ) → 10 ^ k ≤ n → n < 10 ^ k * 10 → length (decimal n) ≡ suc k
unfolding decimal
length-decimal k n l h =
    length-numeral 10 (omega arith) (λ n m h. omega arith) (λ n m h. omega arith) k n n
      (omega arith) l h

pub length-hex : (k n : ℕ) → 16 ^ k ≤ n → n < 16 ^ k * 16 → length (hex n) ≡ suc k
unfolding hex
length-hex k n l h =
    length-numeral 16 (omega arith) (λ n m h. omega arith) (λ n m h. omega arith) k n n
      (omega arith) l h

pub hex-digit : (n : ℕ) → n < 16 → hex n ≡ digit n ∷ []
unfolding hex numeral
hex-digit zero h = refl
hex-digit (suc n) h = ground arith

pub hex_pair : (n : ℕ) → 16 ≤ n → n < 256 → hex n ≡ digit (n / 16) ∷ (digit (n % 16) ∷ [])
unfolding hex numeral
hex_pair zero l h = absurd (omega arith)
hex_pair (suc zero) l h = absurd (omega arith)
hex_pair (suc (suc n)) l h = ground arith

pub length-hex-le : (k n : ℕ) → n < 16 ^ k * 16 → length (hex n) ≤ suc k
unfolding hex
length-hex-le k n h =
    length-numeral-le 16 (omega arith) (λ n m h. omega arith) (λ n m h. omega arith) k n n
      (omega arith) h

digit_le : (d : ℕ) → 48 ≤ digit d
digit_le d = ground arith

-- A digit is no white space.
numeral-All : (base fuel n : ℕ) → All (λ c. 48 ≤ c) (numeral base fuel n)
unfolding numeral
numeral-All base zero n = (digit_le n, tt)
numeral-All base (suc fuel) n = elim (Bool-cases (ltb n base)) [
  | inl y ↦ rw y (digit_le n, tt)
  | inr m ↦ rw m (
      All-append (λ c. 48 ≤ c) (numeral base fuel (n / base)) (digit (n % base) ∷ [])
        (numeral-All base fuel (n / base)) (digit_le (n % base), tt))
]

pub hex-All : (n : ℕ) → All (λ c. 48 ≤ c) (hex n)
unfolding hex
hex-All n = numeral-All 16 n n

pub decimal-All : (n : ℕ) → All (λ c. 48 ≤ c) (decimal n)
unfolding decimal
decimal-All n = numeral-All 10 n n
