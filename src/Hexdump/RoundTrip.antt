-- ===== src/Hexdump/RoundTrip.antt =====
-- A body is read back from its dump.
use statico.Prelude.{
  ℕ, zero, suc, ◌+◌, ◌-◌, ◌*◌, ◌≤◌, ◌<◌, true, false, [], ◌∷◌, ◌++◌, map, append_assoc, ◌≡◌, refl,
  ap, ◌∙◌, Bytes, length, take, drop, All, All-append, hex, hex-All, ltb, leb, ◌==◌, Bool-cases,
  inl, inr, arith, take-append-drop, length-drop, length-append,
}
use statico.Hexdump.{
  repeat_byte, padded_hex, is_ascii_graphic, hex_section, missing_section, ascii_char, dump_line,
  dump_lines, format_body_hexdump,
}
use statico.Hexdump.Reader.{
  behind, read_section, read_lines, read_dump, IsByte, IsClosed, All-take-drop, length-take-le,
  read_section-hex_section,
}

abbrev Lacks : ℕ → Bytes → Type 0
Lacks c s = All (λ b. (b == c) ≡ false) s

behind-skip : (c : ℕ) (xs s : Bytes) → Lacks c xs → behind c (xs ++ s) ≡ behind c s
behind-skip c [] s h = refl
behind-skip c (x ∷ xs) s h = rw (behind, h.0) (behind-skip c xs s h.1)

behind-here : (c : ℕ) (s : Bytes) → behind c (c ∷ s) ≡ s
behind-here c s = let same : (c == c) ≡ true = ground arith in rw (behind, same) refl

All-map_le : (c : ℕ) (s : Bytes) → c < 48 → All (λ b. 48 ≤ b) s → Lacks c s
All-map_le c [] h all = tt
All-map_le c (b ∷ s) h all = (ground arith, All-map_le c s h all.1)

Lacks-repeat_byte : (c n b : ℕ) → (b == c) ≡ false → Lacks c (repeat_byte n b)
Lacks-repeat_byte c zero b h = tt
Lacks-repeat_byte c (suc n) b h = (h, Lacks-repeat_byte c n b h)

Lacks-padded_hex : (c width n : ℕ) → c < 48 → Lacks c (padded_hex width n)
unfolding padded_hex
Lacks-padded_hex c width n h =
    All-append (λ b. (b == c) ≡ false) (repeat_byte (width - length (hex n)) 48) (hex n)
      (Lacks-repeat_byte c (width - length (hex n)) 48 (ground arith))
      (All-map_le c (hex n) h (hex-All n))

Lacks-hex_section : (i : ℕ) (chunk : Bytes) → Lacks 10 (hex_section i chunk)
unfolding hex_section
Lacks-hex_section i [] = tt
Lacks-hex_section i (b ∷ chunk) =
    let rest : Lacks 10 (padded_hex 2 b ++ (32 ∷ hex_section (i + 1) chunk)) =
      All-append (λ d. (d == 10) ≡ false) (padded_hex 2 b) (32 ∷ hex_section (i + 1) chunk)
        (Lacks-padded_hex 10 2 b (omega arith)) (refl, Lacks-hex_section (i + 1) chunk) in
    elim (Bool-cases (i == 8)) [ inl y ↦ rw y (refl, rest) | inr n ↦ rw n rest ]

Lacks-missing_section : (chunk : Bytes) → Lacks 10 (missing_section chunk)
unfolding missing_section
Lacks-missing_section chunk = elim (Bool-cases (ltb (length chunk) 16)) [
  | inr n ↦ rw n tt
  | inl y ↦
      let blanks = Lacks-repeat_byte 10 (3 * (16 - length chunk)) 32 refl in
      rw y (elim (Bool-cases (leb (length chunk) 8)) [
        | inl z ↦ rw z (
            All-append (λ d. (d == 10) ≡ false) (repeat_byte (3 * (16 - length chunk)) 32) (32 ∷ [])
              blanks (refl, tt))
        | inr m ↦ rw m (
            All-append (λ d. (d == 10) ≡ false) (repeat_byte (3 * (16 - length chunk)) 32) [] blanks
              tt)
      ])
]

Lacks-ascii : (chunk : Bytes) → Lacks 10 (map ascii_char chunk)
unfolding ascii_char is_ascii_graphic
Lacks-ascii [] = tt
Lacks-ascii (b ∷ chunk) = (ground arith, Lacks-ascii chunk)

-- The line of a chunk in front of what follows it, bracketed to the right.
abbrev behind_missing : Bytes → Bytes → Bytes
behind_missing chunk rest = 32 ∷ (b'|' ∷ (map ascii_char chunk ++ (b'|' ∷ (10 ∷ rest))))

dump_line-append :
    (idx : ℕ) (chunk rest : Bytes)
    → dump_line idx chunk ++ rest
      ≡ padded_hex 8 (idx * 16)
        ++ (32
            ∷ (32 ∷ (hex_section 0 chunk ++ (missing_section chunk ++ behind_missing chunk rest))))
unfolding dump_line
dump_line-append idx chunk rest = simp append_assoc

-- Behind the line's feed comes what follows the line.
behind-dump_line : (idx : ℕ) (chunk rest : Bytes) → behind 10 (dump_line idx chunk ++ rest) ≡ rest
behind-dump_line idx chunk rest =
    ap (behind 10) (dump_line-append idx chunk rest)
    ∙ (behind-skip 10 (padded_hex 8 (idx * 16)) _ (Lacks-padded_hex 10 8 (idx * 16) (omega arith))
        ∙ (behind-skip 10 (hex_section 0 chunk) _ (Lacks-hex_section 0 chunk)
            ∙ (behind-skip 10 (missing_section chunk) _ (Lacks-missing_section chunk)
                ∙ behind-skip 10 (map ascii_char chunk) _ (Lacks-ascii chunk))))

-- The section of a line, in front of what follows it.
behind_offset :
    (idx : ℕ) (chunk rest : Bytes)
    → drop 1 (behind 32 (dump_line idx chunk ++ rest))
      ≡ hex_section 0 chunk ++ (missing_section chunk ++ behind_missing chunk rest)
behind_offset idx chunk rest =
    ap (λ (s : Bytes). drop 1 (behind 32 s)) (dump_line-append idx chunk rest)
    ∙ ap (drop 1) (
        behind-skip 32 (padded_hex 8 (idx * 16)) _ (Lacks-padded_hex 32 8 (idx * 16) (omega arith)))

IsClosed-missing_section :
    (chunk s : Bytes) → length chunk ≤ 16 → IsClosed 16 chunk (missing_section chunk ++ (32 ∷ s))
unfolding missing_section
IsClosed-missing_section chunk s h = elim (Bool-cases (ltb (length chunk) 16)) [
  | inr n ↦ inl (ground arith)
  | inl y ↦ inr (
    ground arith,
    elim (Bool-cases (length chunk == 15)) [
      | inl z ↦ let one : length chunk ≡ 15 = ground arith in rw one (s, refl)
      | inr m ↦
          let more : 3 * (16 - length chunk) ≡ suc (suc (suc (suc (3 * (16 - length chunk) - 4)))) =
            ground arith in
          rw (y, more) (_, refl)
    ],
  )
]

read_line :
    (idx : ℕ) (chunk rest : Bytes)
    → All IsByte chunk
    → length chunk ≤ 16
    → read_section 16 (drop 1 (behind 32 (dump_line idx chunk ++ rest))) ≡ chunk
read_line idx chunk rest all h =
    ap (read_section 16) (behind_offset idx chunk rest)
    ∙ read_section-hex_section 16 0 chunk (missing_section chunk ++ behind_missing chunk rest)
        (omega arith) all (IsClosed-missing_section chunk _ h)

read_lines-nil : (g : ℕ) → read_lines g [] ≡ []
read_lines-nil zero = refl
read_lines-nil (suc g) = read_lines-nil g

read_lines-dump_lines :
    (fuel g idx : ℕ) (body : Bytes)
    → length body ≤ fuel
    → length body ≤ g
    → All IsByte body
    → read_lines g (dump_lines fuel idx body) ≡ body
unfolding dump_lines
read_lines-dump_lines fuel g idx [] f h all = read_lines-nil g
read_lines-dump_lines zero g idx (b ∷ body) f h all = absurd (omega arith)
read_lines-dump_lines (suc fuel) zero idx (b ∷ body) f h all = absurd (omega arith)
read_lines-dump_lines (suc fuel) (suc g) idx (b ∷ body) f h all =
    let parts = All-take-drop 16 (b ∷ body) all in
    let rest = dump_lines fuel (idx + 1) (drop 16 (b ∷ body)) in
    let less : length (drop 16 (b ∷ body)) ≡ suc (length body) - 16 = length-drop 16 (b ∷ body) in
    rw
      (
        read_line idx (take 16 (b ∷ body)) rest parts.0 (length-take-le 16 (b ∷ body)),
        behind-dump_line idx (take 16 (b ∷ body)) rest,
        read_lines-dump_lines fuel g (idx + 1) (drop 16 (b ∷ body)) (omega arith) (omega arith)
            parts.1,
      )
      (take-append-drop 16 (b ∷ body))

length-map : (f : ℕ → ℕ) (xs : Bytes) → length (map f xs) ≡ length xs
length-map f [] = refl
length-map f (x ∷ xs) = ap suc (length-map f xs)

length-le-dump_lines :
    (fuel idx : ℕ) (body : Bytes)
    → length body ≤ fuel
    → length body ≤ length (dump_lines fuel idx body)
unfolding dump_lines
length-le-dump_lines fuel idx [] f = omega arith
length-le-dump_lines zero idx (b ∷ body) f = absurd (omega arith)
length-le-dump_lines (suc fuel) idx (b ∷ body) f =
    let chunk = take 16 (b ∷ body) in
    let left = drop 16 (b ∷ body) in
    let rest = dump_lines fuel (idx + 1) left in
    let less : length left ≡ suc (length body) - 16 = length-drop 16 (b ∷ body) in
    omega (
      arith,
      ap length (dump_line-append idx chunk rest),
      length-append (padded_hex 8 (idx * 16)) (
          32
          ∷ (32 ∷ (hex_section 0 chunk ++ (missing_section chunk ++ behind_missing chunk rest)))),
      length-append (hex_section 0 chunk) (missing_section chunk ++ behind_missing chunk rest),
      length-append (missing_section chunk) (behind_missing chunk rest),
      length-append (map ascii_char chunk) (b'|' ∷ (10 ∷ rest)),
      length-map ascii_char chunk,
      length-le-dump_lines fuel (idx + 1) left (omega arith),
      less,
      ap length (take-append-drop 16 (b ∷ body)),
      length-append chunk left,
    )

-- A reader of the hexadecimal sections reads every body of bytes back from its dump.
pub read_dump-format_body_hexdump :
    (body : Bytes) → All (λ b. b < 256) body → read_dump (format_body_hexdump body) ≡ body
unfolding format_body_hexdump
read_dump-format_body_hexdump body all =
    read_lines-dump_lines (length body) (length (dump_lines (length body) 0 body)) 0 body
      (omega arith) (length-le-dump_lines (length body) 0 body (omega arith)) all
