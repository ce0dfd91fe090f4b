-- ===== src/Mcp/Scan/Tokens.antt =====
-- What the scanner's small loops do on white space, strings and tokens.
use statico.Prelude.{ℕ, ◌+◌, true, false, [], ◌∷◌, ◌++◌, ◌≡◌, Bytes, All, arith, length}
use statico.Mcp.Scan.{
  found, is_ws, ws_end, skip_ws, string_end, parse_string, token_end, is_delimiter,
}
use statico.Mcp.Scan.At.{At, At-suc, get_elem?-At}
use statico.Mcp.Json.{IsContent, nil, plain, escape, IsWs, IsTokenByte, quoted}

-- The text does not begin with white space.
abbrev pub NoWs : Bytes → Type 0
NoWs [] = Unit
NoWs (c ∷ _) = is_ws c ≡ false

ws_end-IsWs :
    (ws rest : Bytes) (i : ℕ) → IsWs ws → NoWs rest → ws_end (ws ++ rest) i ≡ i + length ws
unfolding ws_end
ws_end-IsWs [] [] i h n = omega arith
ws_end-IsWs [] (c ∷ rest) i h n = ground arith
ws_end-IsWs (b ∷ ws) rest i h n = ground (arith, h.0, ws_end-IsWs ws rest (i + 1) h.1 n)

pub skip_ws-At :
    (body : Bytes) (i : ℕ) (ws rest : Bytes)
    → At body i (ws ++ rest)
    → IsWs ws
    → NoWs rest
    → skip_ws body i ≡ i + length ws
unfolding skip_ws
skip_ws-At body i ws rest at h n = rw at (ws_end-IsWs ws rest i h n)

string_end-IsContent :
    {s : Bytes} (rest : Bytes) (start i : ℕ)
    → IsContent s
    → string_end (s ++ (b'"' ∷ rest)) start i ≡ found (start, i + length s, i + length s + 1)
unfolding string_end
string_end-IsContent [] start i nil = ground arith
string_end-IsContent (x ∷ rest) start i nil = ground arith
string_end-IsContent rest start i (plain {c} {cs = []} h k t) =
    ground (arith, string_end-IsContent rest start (i + 1) t)
string_end-IsContent rest start i (plain {c} {cs = x ∷ cs} h k t) =
    ground (arith, string_end-IsContent rest start (i + 1) t)
string_end-IsContent rest start i (escape {c} {cs} t) =
    ground (arith, string_end-IsContent rest start (i + 2) t)

pub parse_string-At :
    (body : Bytes) (i : ℕ) (s rest : Bytes)
    → At body i (quoted s rest)
    → IsContent s
    → parse_string body i ≡ found (i + 1, i + 1 + length s, i + 1 + length s + 1)
unfolding parse_string
parse_string-At body i s rest at h =
    rw
      (get_elem?-At body i b'"' (s ++ (b'"' ∷ rest)) at, At-suc body i b'"' (s ++ (b'"' ∷ rest)) at)
      (string_end-IsContent rest (i + 1) (i + 1) h)

-- The text is used up, or a delimiter follows.
abbrev pub Delimited : Bytes → Type 0
Delimited [] = Unit
Delimited (c ∷ _) = is_delimiter c ≡ true

pub token_end-IsToken :
    (t rest : Bytes) (i : ℕ)
    → All IsTokenByte t
    → Delimited rest
    → token_end (t ++ rest) i ≡ i + length t
unfolding token_end
token_end-IsToken [] [] i h n = omega arith
token_end-IsToken [] (c ∷ rest) i h n = ground arith
token_end-IsToken (b ∷ t) rest i h n = ground (arith, h.0.0, token_end-IsToken t rest (i + 1) h.1 n)
