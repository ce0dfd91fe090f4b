-- ===== src/Hexdump/Columns.antt =====
-- The columns of a dump: the characters of every line start in the same place.
use statico.Prelude.{
  ℕ, zero, suc, ◌+◌, ◌-◌, ◌*◌, ◌^◌, ◌≤◌, ◌<◌, [], ◌∷◌, ◌++◌, map, append_assoc, ◌≡◌, refl, sym, ap,
  Bytes, length, take, drop, take-append-drop, length-drop, All, hex, length-hex-le, ltb, leb, ◌==◌,
  if◌then◌else◌, Bool-cases, inl, inr, arith, length-append,
}
use statico.Hexdump.{
  repeat_byte, padded_hex, hex_section, missing_section, ascii_char, dump_line, dump_lines,
  format_body_hexdump,
}
use statico.Hexdump.Reader.{padded_hex-two, All-take-drop, length-take-le}

length-repeat_byte : (n c : ℕ) → length (repeat_byte n c) ≡ n
length-repeat_byte zero c = refl
length-repeat_byte (suc n) c = ap suc (length-repeat_byte n c)

length-padded_hex : (width n : ℕ) → length (hex n) ≤ width → length (padded_hex width n) ≡ width
unfolding padded_hex
length-padded_hex width n h = omega (
  arith,
  length-append (repeat_byte (width - length (hex n)) b'0') (hex n),
  length-repeat_byte (width - length (hex n)) b'0',
)

length-hex_section :
    (i : ℕ) (chunk : Bytes)
    → All (λ b. b < 256) chunk
    → length (hex_section i chunk)
      ≡ 3 * length chunk + (if leb i 8 then (if ltb 8 (i + length chunk) then 1 else 0) else 0)
unfolding hex_section
length-hex_section i [] all = ground arith
length-hex_section i (b ∷ chunk) all =
    let rest = length-hex_section (i + 1) chunk all.1 in
    let two : length (padded_hex 2 b) ≡ 2 = ap length (padded_hex-two b all.0) in
    let group = length-append (padded_hex 2 b) (32 ∷ hex_section (i + 1) chunk) in
    elim (Bool-cases (i == 8)) [
      | inl y ↦ rw y (ground (arith, rest, two, group))
      | inr n ↦ rw n (ground (arith, rest, two, group))
    ]

-- The two sections take 49 columns, whatever the chunk.
length-sections :
    (chunk : Bytes)
    → All (λ b. b < 256) chunk
    → length chunk ≤ 16
    → length (hex_section 0 chunk) + length (missing_section chunk) ≡ 49
unfolding missing_section
length-sections chunk all h =
    let hexes = length-hex_section 0 chunk all in
    let blanks = length-repeat_byte (3 * (16 - length chunk)) 32 in
    let one = length-append (repeat_byte (3 * (16 - length chunk)) 32) (32 ∷ []) in
    let none = length-append (repeat_byte (3 * (16 - length chunk)) 32) [] in
    ground (arith, hexes, blanks, one, none)

-- Lines whose characters start in column 61 and end with a bar, and the bytes that these characters
-- stand for.
pub data IsAligned : Bytes → Bytes → Type 0 where
  no_line : IsAligned [] []
  next_line :
      {text body : Bytes} (left chunk text_left body_left : Bytes)
      → length left ≡ 61
      → text ≡ left ++ (map ascii_char chunk ++ (b'|' ∷ (10 ∷ text_left)))
      → body ≡ chunk ++ body_left
      → IsAligned text_left body_left
      → IsAligned text body

-- What stands in front of the characters of a line.
front : ℕ → Bytes → Bytes
front idx chunk =
    padded_hex 8 (idx * 16)
    ++ (32 ∷ (32 ∷ (hex_section 0 chunk ++ (missing_section chunk ++ (32 ∷ (b'|' ∷ []))))))

length-front :
    (idx : ℕ) (chunk : Bytes)
    → All (λ b. b < 256) chunk
    → length chunk ≤ 16
    → idx * 16 < 2 ^ 32
    → length (front idx chunk) ≡ 61
unfolding front
length-front idx chunk all h k = omega (
  arith,
  length-padded_hex 8 (idx * 16) (length-hex-le 7 (idx * 16) k),
  length-append (padded_hex 8 (idx * 16))
      (32 ∷ (32 ∷ (hex_section 0 chunk ++ (missing_section chunk ++ (32 ∷ (b'|' ∷ [])))))),
  length-append (hex_section 0 chunk) (missing_section chunk ++ (32 ∷ (b'|' ∷ []))),
  length-append (missing_section chunk) (32 ∷ (b'|' ∷ [])),
  length-sections chunk all h,
)

dump_line-front :
    (idx : ℕ) (chunk rest : Bytes)
    → dump_line idx chunk ++ rest
      ≡ front idx chunk ++ (map ascii_char chunk ++ (b'|' ∷ (10 ∷ rest)))
unfolding dump_line front
dump_line-front idx chunk rest = simp append_assoc

dump_lines-IsAligned :
    (fuel idx : ℕ) (body : Bytes)
    → length body ≤ fuel
    → All (λ b. b < 256) body
    → idx * 16 + length body ≤ 2 ^ 32
    → IsAligned (dump_lines fuel idx body) body
unfolding dump_lines
dump_lines-IsAligned fuel idx [] f all h = no_line
dump_lines-IsAligned zero idx (b ∷ body) f all h = absurd (omega arith)
dump_lines-IsAligned (suc fuel) idx (b ∷ body) f all h =
    let chunk = take 16 (b ∷ body) in
    let left = drop 16 (b ∷ body) in
    let parts = All-take-drop 16 (b ∷ body) all in
    let less : length left ≡ suc (length body) - 16 = length-drop 16 (b ∷ body) in
    next_line (front idx chunk) chunk (dump_lines fuel (idx + 1) left) left
      (length-front idx chunk parts.0 (length-take-le 16 (b ∷ body)) (omega arith))
      (dump_line-front idx chunk (dump_lines fuel (idx + 1) left))
      (sym (take-append-drop 16 (b ∷ body)))
      (dump_lines-IsAligned fuel (idx + 1) left (omega arith) parts.1 (omega (arith, less)))

-- In the dump of every body of at most 2^32 bytes the characters of every line start in column 61, and
-- those of all lines one behind the other stand for the body.
pub format_body_hexdump-IsAligned :
    (body : Bytes)
    → All (λ b. b < 256) body
    → length body ≤ 2 ^ 32
    → IsAligned (format_body_hexdump body) body
unfolding format_body_hexdump
format_body_hexdump-IsAligned body all h =
    dump_lines-IsAligned (length body) 0 body (omega arith) all (omega arith)
