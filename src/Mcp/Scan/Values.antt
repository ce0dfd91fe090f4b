-- ===== src/Mcp/Scan/Values.antt =====
-- `skip_value` on a well-formed value: it stops right behind it.
use statico.Prelude.{
  ℕ, suc, ◌+◌, ◌-◌, ◌^◌, ◌<◌, [], ◌∷◌, ◌++◌, ◌≡◌, refl, ◌∙◌, inl, inr, Bytes, arith, length,
  length-append, ap,
}
use statico.Mcp.Scan.{found, is_ws, is_delimiter, container_loop, value_end, skip_value, slice}
use statico.Mcp.Scan.At.{At, At-suc, At-append, At-length, get_elem?-At, slice-At}
use statico.Mcp.Scan.Tokens.{NoWs, Delimited, skip_ws-At, parse_string-At, token_end-IsToken}
use statico.Mcp.Scan.Containers.{loop-Chunk, loop_return}
use statico.Mcp.Json.{
  Json, str, token, arr, obj, IsWs, quoted, print, print_items, print_fields, IsJson,
}
use statico.Mcp.Json.Chunk.{Chunk, IsPair, items-Chunk, fields-Chunk}
use statico.Mcp.Json.Print.{print-append}

-- A value does not begin with white space.
pub print-NoWs : (v : Json) (rest : Bytes) → IsJson v → NoWs (print v rest)
unfolding is_ws
print-NoWs (str s) rest h = refl
print-NoWs (token []) rest h = absurd (h.1 refl)
print-NoWs (token (c ∷ t)) rest h = unfold is_delimiter in ground (arith, h.0.0.0)
print-NoWs (arr xs) rest h = refl
print-NoWs (obj fs) rest h = refl

container_value :
    (body : Bytes) (i o close : ℕ) (a rest : Bytes)
    → At body i (o ∷ a)
    → IsPair o close
    → Chunk a (close ∷ rest)
    → length body < 2 ^ 64
    → container_loop (length body) body close (i + 1) 1 ≡ found (i + 1 + length a - length rest)
container_value body i o close a rest at pair chunk fits =
    let whole = At-length body i (o ∷ a) at in
    let past =
      loop-Chunk body close (length body) (i + 1) 1 chunk (At-suc body i o a at) (omega arith)
        (omega (arith, whole)) (omega (arith, whole)) in
    let left : past.fuel ≡ suc (past.fuel - 1) = omega (arith, past.burnt, past.shorter, whole) in
    let there : past.end + 1 ≡ i + 1 + length a - length rest =
      omega (arith, past.moved, past.shorter) in
    past.passed
    ∙ ap (λ n. container_loop n body close past.end 1) left
    ∙ loop_return body close (past.fuel - 1) past.end 1 o rest past.at_end pair refl
    ∙ ap found there

-- From the value's first byte on.
pub value_end-print :
    (body : Bytes) (i : ℕ) (v : Json) (rest : Bytes)
    → At body i (print v rest)
    → IsJson v
    → Delimited rest
    → length body < 2 ^ 64
    → value_end body i ≡ found (i + length (print v rest) - length rest)
unfolding value_end
value_end-print body i (str s) rest at h d fits =
    let there : i + 1 + length s + 1 ≡ i + length (quoted s rest) - length rest =
      omega (arith, length-append s (b'"' ∷ rest)) in
    rw (get_elem?-At body i b'"' (s ++ (b'"' ∷ rest)) at, parse_string-At body i s rest at h, there)
value_end-print body i (token []) rest at h d fits = absurd (h.1 refl)
value_end-print body i (token (c ∷ t)) rest at h d fits =
    let there : i + length (c ∷ t) ≡ i + length ((c ∷ t) ++ rest) - length rest =
      omega (arith, length-append (c ∷ t) rest) in
    let reads = token_end-IsToken (c ∷ t) rest i h.0 d in
    rw (get_elem?-At body i c (t ++ rest) at, at, reads, there) (ground (arith, h.0.0.1))
value_end-print body i (arr xs) rest at h d fits =
    let there : i + 1 + length (print_items xs (b']' ∷ rest)) - length rest
        ≡ i + length (print (arr xs) rest) - length rest =
      omega arith in
    rw (get_elem?-At body i b'[' (print_items xs (b']' ∷ rest)) at) (
      container_value body i b'[' b']' (print_items xs (b']' ∷ rest)) rest at (inr (refl, refl))
        (items-Chunk xs (b']' ∷ rest) h) fits
      ∙ ap found there)
value_end-print body i (obj fs) rest at h d fits =
    let there : i + 1 + length (print_fields fs (b'}' ∷ rest)) - length rest
        ≡ i + length (print (obj fs) rest) - length rest =
      omega arith in
    rw (get_elem?-At body i b'{' (print_fields fs (b'}' ∷ rest)) at) (
      container_value body i b'{' b'}' (print_fields fs (b'}' ∷ rest)) rest at (inl (refl, refl))
        (fields-Chunk fs (b'}' ∷ rest) h) fits
      ∙ ap found there)

pub length-print :
    (v : Json) (rest : Bytes) → length (print v rest) ≡ length (print v []) + length rest
length-print v rest = ap length (print-append v rest) ∙ length-append (print v []) rest

-- On a body below 2^64 bytes that has white space, a well-formed JSON value and then a delimiter
-- or nothing from `pos` on, `skip_value` finds the position right behind the value.
pub skip_value-print :
    (body : Bytes) (pos : ℕ) (ws : Bytes) (v : Json) (rest : Bytes)
    → At body pos (ws ++ print v rest)
    → IsWs ws
    → IsJson v
    → Delimited rest
    → length body < 2 ^ 64
    → skip_value body pos ≡ found (pos + length ws + length (print v []))
unfolding skip_value
skip_value-print body pos ws v rest at w h d fits =
    let there : pos + length ws + length (print v rest) - length rest
        ≡ pos + length ws + length (print v []) =
      omega (arith, length-print v rest) in
    rw (skip_ws-At body pos ws (print v rest) at w (print-NoWs v rest h)) (
      value_end-print body (pos + length ws) v rest (At-append body pos ws (print v rest) at) h d
        fits
      ∙ ap found there)

-- Then the value's text is the slice, and the rest stands behind it.
pub slice-print :
    (body : Bytes) (i : ℕ) (v : Json) (rest : Bytes)
    → At body i (print v rest)
    → slice body i (i + length (print v [])) ≡ print v []
slice-print body i v rest at = slice-At body i (print v []) rest (at ∙ print-append v rest)

pub At-print :
    (body : Bytes) (i : ℕ) (v : Json) (rest : Bytes)
    → At body i (print v rest)
    → At body (i + length (print v [])) rest
At-print body i v rest at = At-append body i (print v []) rest (at ∙ print-append v rest)
