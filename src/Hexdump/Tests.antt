-- ===== src/Hexdump/Tests.antt =====
-- Small dumps.
use statico.Prelude.{◌≡◌, refl, codes, Bytes, arith, hex}
use statico.Hexdump.{
  padded_hex, is_ascii_graphic, hex_section, missing_section, ascii_char, dump_line, dump_lines,
  format_body_hexdump,
}
use statico.Hexdump.Reader.{read_dump}
use statico.Hexdump.RoundTrip.{read_dump-format_body_hexdump}

short_dump :
    format_body_hexdump (codes "hello\n12345")
    ≡ codes "00000000  68 65 6c 6c 6f 0a 31 32  33 34 35                 |hello.12345|\n"
unfolding format_body_hexdump dump_lines dump_line hex_section missing_section padded_hex ascii_char
    is_ascii_graphic hex
short_dump = refl

abbrev body : Bytes
body = codes "GET / HTTP/1.1\r\n\r\n"

read_dump-format_body_hexdump_example : read_dump (format_body_hexdump body) ≡ body
read_dump-format_body_hexdump_example = read_dump-format_body_hexdump body (omega arith)
