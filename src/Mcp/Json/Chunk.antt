-- ===== src/Mcp/Json/Chunk.antt =====
-- Pieces of a text by their strings and brackets alone: all that the loop of `skip_value` looks at.
use statico.Prelude.{ℕ, false, [], ◌∷◌, ◌++◌, ◌≡◌, ◌⊎◌, inl, inr, refl, Bytes, All, arith}
use statico.Mcp.Scan.{is_ws}
use statico.Mcp.Json.{
  IsContent, IsWs, is_structural, IsTokenByte, Json, str, token, arr, obj, Items, no_items, item,
  items, Fields, no_fields, field, fields, print, print_items, print_fields, IsJson, IsItems,
  IsFields,
}

abbrev pub IsPair : ℕ → ℕ → Type 0
IsPair o c = ((o ≡ b'{') × (c ≡ b'}')) ⊎ ((o ≡ b'[') × (c ≡ b']'))

-- `Chunk a r`: the text `a` is a piece with balanced brackets, and then `r`.
pub data Chunk : Bytes → Bytes → Type 0 where
  nil : {a r : Bytes} → a ≡ r → Chunk a r
  plain : {c : ℕ} {a r : Bytes} → is_structural c ≡ false → Chunk a r → Chunk (c ∷ a) r
  string : {s a r : Bytes} → IsContent s → Chunk a r → Chunk (b'"' ∷ (s ++ (b'"' ∷ a))) r
  group : {o c : ℕ} {a b r : Bytes} → IsPair o c → Chunk a (c ∷ b) → Chunk b r → Chunk (o ∷ a) r

ws-Chunk : (ws : Bytes) {a r : Bytes} → IsWs ws → Chunk a r → Chunk (ws ++ a) r
ws-Chunk [] h n = n
ws-Chunk (b ∷ ws) h n = plain {c = b} (unfold is_ws in ground (arith, h.0)) (ws-Chunk ws h.1 n)

token-Chunk : (t : Bytes) {a r : Bytes} → All IsTokenByte t → Chunk a r → Chunk (t ++ a) r
token-Chunk [] h n = n
token-Chunk (b ∷ t) h n = plain h.0.1 (token-Chunk t h.1 n)

mutual
  print-Chunk : (v : Json) {a r : Bytes} → IsJson v → Chunk a r → Chunk (print v a) r
  print-Chunk (str s) h n = string h n
  print-Chunk (token t) h n = token-Chunk t h.0 n
  print-Chunk (arr xs) h n = group (inr (refl, refl)) (print_items-Chunk xs h (nil refl)) n
  print-Chunk (obj fs) h n = group (inl (refl, refl)) (print_fields-Chunk fs h (nil refl)) n

  print_items-Chunk :
      (xs : Items) {a r : Bytes} → IsItems xs → Chunk a r → Chunk (print_items xs a) r
  print_items-Chunk (no_items ws) h n = ws-Chunk ws h n
  print_items-Chunk (item ws v ws') h n = ws-Chunk ws h.0 (print-Chunk v h.1 (ws-Chunk ws' h.2 n))
  print_items-Chunk (items ws v ws' xs) (a, b, c, d) n =
      ws-Chunk ws a (print-Chunk v b (ws-Chunk ws' c (plain refl (print_items-Chunk xs d n))))

  print_fields-Chunk :
      (fs : Fields) {a r : Bytes} → IsFields fs → Chunk a r → Chunk (print_fields fs a) r
  print_fields-Chunk (no_fields ws) h n = ws-Chunk ws h n
  print_fields-Chunk (field ws k ws1 ws2 v ws3) (a, b, c, d, e, f) n =
      ws-Chunk ws a (
        string b
          (ws-Chunk ws1 c (plain refl (ws-Chunk ws2 d (print-Chunk v e (ws-Chunk ws3 f n))))))
  print_fields-Chunk (fields ws k ws1 ws2 v ws3 fs) (a, b, c, d, e, f, g) n = ws-Chunk ws a (
      string b (
        ws-Chunk ws1 c (
          plain refl (
            ws-Chunk ws2 d
              (print-Chunk v e (ws-Chunk ws3 f (plain refl (print_fields-Chunk fs g n))))))))

-- The inside of an array and of an object is balanced.
pub items-Chunk : (xs : Items) (r : Bytes) → IsItems xs → Chunk (print_items xs r) r
items-Chunk xs r h = print_items-Chunk xs h (nil refl)

pub fields-Chunk : (fs : Fields) (r : Bytes) → IsFields fs → Chunk (print_fields fs r) r
fields-Chunk fs r h = print_fields-Chunk fs h (nil refl)
