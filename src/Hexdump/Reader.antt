-- ===== src/Hexdump/Reader.antt =====
-- A reader of hexadecimal dumps, and what it reads of one line's section.
use statico.Prelude.{
  ℕ, zero, suc, ◌+◌, ◌-◌, ◌*◌, ◌/◌, ◌%◌, ◌≤◌, ◌<◌, true, false, [], ◌∷◌, ◌++◌, append_assoc, ◌≡◌,
  ◌⊎◌, refl, ap, ◌∙◌, Bytes, length, take, drop, All, digit, hex-digit, hex_pair, ltb, ◌==◌,
  if◌then◌else◌, Bool-cases, inl, inr, arith,
}
use statico.Hexdump.{padded_hex, hex_section}

-- What stands behind the first byte `c`.
abbrev pub behind : ℕ → Bytes → Bytes
behind c [] = []
behind c (b ∷ s) = elim (b == c) [ true ↦ s | false ↦ behind c s ]

abbrev pub digit_value : ℕ → ℕ
digit_value c = if ltb c b'a' then c - b'0' else c - b'a' + 10

-- The bytes of at most `left` groups of two digits; the group before the last eight has one blank
-- more in front. A blank in place of a digit ends the section.
abbrev pub next_group : ℕ → Bytes → Bytes
next_group left s = if left == 7 then drop 1 s else s

abbrev pub read_section : ℕ → Bytes → Bytes
read_section zero s = []
read_section (suc left) s = elim (next_group left s) [
  | [] ↦ []
  | h ∷ [] ↦ []
  | h ∷ l ∷ rest ↦ elim (h == 32) [
    | true ↦ []
    | false ↦ (digit_value h * 16 + digit_value l) ∷ read_section left (drop 1 rest)
  ]
]

-- The bytes of a dump: behind each offset and its two blanks, one section, up to the line's end.
abbrev pub read_lines : ℕ → Bytes → Bytes
read_lines zero s = []
read_lines (suc fuel) s = read_section 16 (drop 1 (behind 32 s)) ++ read_lines fuel (behind 10 s)

-- A text has at most as many lines as characters.
abbrev pub read_dump : Bytes → Bytes
read_dump s = read_lines (length s) s

ltb→lt : (a b : ℕ) → ltb a b ≡ true → a < b
ltb→lt a b h = ground arith

pub padded_hex-two : (b : ℕ) → b < 256 → padded_hex 2 b ≡ digit (b / 16) ∷ (digit (b % 16) ∷ [])
unfolding padded_hex
padded_hex-two b h = elim (Bool-cases (ltb b 16)) [
  | inl y ↦ rw (hex-digit b (ground arith)) (
      let high : b / 16 ≡ 0 = omega (arith, ltb→lt b 16 y) in
      let low : b % 16 ≡ b = omega (arith, ltb→lt b 16 y) in rw (high, low) refl)
  | inr m ↦ rw (hex_pair b (ground arith) h) refl
]

pub digit_value-digit : (d : ℕ) → d < 16 → digit_value (digit d) ≡ d
digit_value-digit d h = ground arith

-- One group of two digits is read.
read_section_step :
    (left : ℕ) (s rest : Bytes) (b : ℕ)
    → b < 256
    → next_group left s ≡ digit (b / 16) ∷ (digit (b % 16) ∷ (32 ∷ rest))
    → read_section (suc left) s ≡ b ∷ read_section left rest
read_section_step left s rest b h e =
    let no_blank : (digit (b / 16) == 32) ≡ false = ground arith in
    let value : digit_value (digit (b / 16)) * 16 + digit_value (digit (b % 16)) ≡ b =
      omega (
        arith,
        digit_value-digit (b / 16) (omega arith),
        digit_value-digit (b % 16) (omega arith),
      ) in
    rw (read_section, e, no_blank) (ap (λ (n : ℕ). n ∷ read_section left rest) value)

next_group_lem :
    (i left : ℕ) (s : Bytes)
    → i + suc left ≡ 16
    → next_group left ((if i == 8 then 32 ∷ [] else []) ++ s) ≡ s
next_group_lem i left s h = elim (Bool-cases (left == 7)) [
  | inl y ↦ let here : (i == 8) ≡ true = ground arith in rw (y, here) refl
  | inr n ↦ let here : (i == 8) ≡ false = ground arith in rw (n, here) refl
]

abbrev pub IsByte : ℕ → Type 0
IsByte b = b < 256

-- A section of `left` places is full, or four blanks follow.
abbrev pub IsClosed : ℕ → Bytes → Bytes → Type 0
IsClosed left chunk tail =
    (length chunk ≡ left)
    ⊎ ((length chunk < left) × ((s : Bytes) × (tail ≡ 32 ∷ (32 ∷ (32 ∷ (32 ∷ s))))))

IsClosed-tail :
    (left b : ℕ) (chunk tail : Bytes)
    → IsClosed (suc left) (b ∷ chunk) tail
    → IsClosed left chunk tail
IsClosed-tail left b chunk tail (inl e) = inl (omega arith)
IsClosed-tail left b chunk tail (inr (h, (s, e))) = inr (omega arith, (s, e))

pub read_section-hex_section :
    (left i : ℕ) (chunk tail : Bytes)
    → i + left ≡ 16
    → All IsByte chunk
    → IsClosed left chunk tail
    → read_section left (hex_section i chunk ++ tail) ≡ chunk
unfolding hex_section
read_section-hex_section zero i [] tail h all closed = refl
read_section-hex_section zero i (b ∷ chunk) tail h all (inl e) = absurd (omega arith)
read_section-hex_section zero i (b ∷ chunk) tail h all (inr (lt, (s, e))) = absurd (omega arith)
read_section-hex_section (suc left) i [] tail h all (inl e) = absurd (omega arith)
read_section-hex_section (suc left) i [] tail h all (inr (lt, (s, e))) =
    elim (Bool-cases (left == 7)) [
      | inl y ↦ rw (e, read_section, y) refl
      | inr n ↦ rw (e, read_section, n) refl
    ]
read_section-hex_section (suc left) i (b ∷ chunk) tail h all closed =
    let rest = hex_section (i + 1) chunk in
    let group : next_group left (hex_section i (b ∷ chunk) ++ tail)
        ≡ digit (b / 16) ∷ (digit (b % 16) ∷ (32 ∷ (rest ++ tail))) =
      ap (next_group left)
        (append_assoc (if i == 8 then 32 ∷ [] else []) (padded_hex 2 b ++ (32 ∷ rest)) tail)
      ∙ (next_group_lem i left ((padded_hex 2 b ++ (32 ∷ rest)) ++ tail) h
          ∙ rw (padded_hex-two b all.0) refl) in
    read_section_step left (hex_section i (b ∷ chunk) ++ tail) (rest ++ tail) b all.0 group
    ∙ ap (◌∷◌ b) (
        read_section-hex_section left (i + 1) chunk tail (omega arith) all.1
          (IsClosed-tail left b chunk tail closed))

pub All-take-drop :
    (n : ℕ) (xs : Bytes) → All IsByte xs → All IsByte (take n xs) × All IsByte (drop n xs)
All-take-drop zero xs h = (tt, h)
All-take-drop (suc n) [] h = (tt, tt)
All-take-drop (suc n) (x ∷ xs) h = ((h.0, (All-take-drop n xs h.1).0), (All-take-drop n xs h.1).1)

pub length-take-le : (n : ℕ) (xs : Bytes) → length (take n xs) ≤ n
length-take-le zero xs = omega arith
length-take-le (suc n) [] = omega arith
length-take-le (suc n) (x ∷ xs) = omega (arith, length-take-le n xs)
