-- ===== src/Hexdump.antt =====
-- src/pretty.rs: `format_body_hexdump`, the text of a body at the highest verbosity. Writing into the
-- formatter of a string does not fail, so the text is returned.
pub mod Columns
pub mod Reader
pub mod RoundTrip
mod Tests
use statico.Prelude.{
  ℕ, zero, suc, ◌+◌, ◌-◌, ◌*◌, Bool, ◌&&◌, ◌||◌, [], ◌∷◌, ◌++◌, List, map, Bytes, length, take,
  drop, hex, ltb, leb, ◌==◌, if◌then◌else◌,
}

abbrev pub repeat_byte : ℕ → ℕ → Bytes
repeat_byte zero c = []
repeat_byte (suc n) c = c ∷ repeat_byte n c

-- `{:0widthx}`
unfoldable pub padded_hex : ℕ → ℕ → Bytes
padded_hex width n = repeat_byte (width - length (hex n)) b'0' ++ hex n

unfoldable pub is_ascii_graphic : ℕ → Bool
is_ascii_graphic b = leb 33 b && leb b 126

-- The hexadecimal section of a line, from the byte number `i` on.
unfoldable pub hex_section : ℕ → Bytes → Bytes
hex_section i [] = []
hex_section i (b ∷ chunk) =
    (if i == 8 then 32 ∷ [] else []) ++ (padded_hex 2 b ++ (32 ∷ hex_section (i + 1) chunk))

-- The blanks of a line that is not full.
unfoldable pub missing_section : Bytes → Bytes
missing_section chunk =
    if ltb (length chunk) 16
    then repeat_byte (3 * (16 - length chunk)) 32 ++ (if leb (length chunk) 8 then 32 ∷ [] else [])
    else []

unfoldable pub ascii_char : ℕ → ℕ
ascii_char b = if is_ascii_graphic b || b == 32 then b else b'.'

unfoldable pub dump_line : ℕ → Bytes → Bytes
dump_line chunk_idx chunk =
    padded_hex 8 (chunk_idx * 16)
    ++ (32
        ∷ (32
            ∷ (hex_section 0 chunk
                ++ (missing_section chunk
                    ++ (32 ∷ (b'|' ∷ (map ascii_char chunk ++ (b'|' ∷ (10 ∷ [])))))))))

-- The lines from chunk number `chunk_idx` on. The length of the body is enough fuel, since every
-- chunk takes at least one byte.
unfoldable pub dump_lines : ℕ → ℕ → Bytes → Bytes
dump_lines fuel chunk_idx [] = []
dump_lines zero chunk_idx (b ∷ body) = []
dump_lines (suc fuel) chunk_idx (b ∷ body) =
    dump_line chunk_idx (take 16 (b ∷ body)) ++ dump_lines fuel (chunk_idx + 1) (drop 16 (b ∷ body))

unfoldable pub format_body_hexdump : Bytes → Bytes
format_body_hexdump body = dump_lines (length body) 0 body
