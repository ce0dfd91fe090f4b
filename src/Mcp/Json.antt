-- ===== src/Mcp/Json.antt =====
-- JSON texts as trees that keep their layout: the independent description that the scanner of
-- src/mcp.rs is compared with. Strings hold their escaped content and tokens their raw bytes, as
-- the scanner never decodes either.
pub mod Chunk
pub mod Print
use statico.Prelude.{
  ℕ, Bool, true, false, not, ◌&&◌, ◌||◌, List, [], ◌∷◌, ◌++◌, ◌≡◌, ◌≢◌, Bytes, All, ◌==◌, codes,
}
use statico.Mcp.Scan.{is_ws, is_delimiter}

-- The escaped content of a string: no bare quote, and no backslash without the byte it escapes.
pub data IsContent : Bytes → Type 0 where
  nil : IsContent []
  plain :
      {c : ℕ} {cs : Bytes}
      → (c == b'"') ≡ false
      → (c == b'\\') ≡ false
      → IsContent cs
      → IsContent (c ∷ cs)
  escape : {c : ℕ} {cs : Bytes} → IsContent cs → IsContent (b'\\' ∷ c ∷ cs)

abbrev pub IsWs : Bytes → Type 0
IsWs ws = All (λ b. is_ws b ≡ true) ws

-- A quote or a bracket.
abbrev pub is_structural : ℕ → Bool
is_structural c = c == b'"' || (c == b'{' || c == b'[') || (c == b'}' || c == b']')

-- The bytes of a number, `true`, `false` or `null`.
abbrev pub IsTokenByte : ℕ → Type 0
IsTokenByte c = (is_delimiter c ≡ false) × (is_structural c ≡ false)

mutual
  pub data Json : Type 0 where
    str : Bytes → Json
    token : Bytes → Json
    arr : Items → Json
    obj : Fields → Json

  -- `no_items ws` is `[ws]`, and `item ws v ws' rest` is the value `v` between white space, with a
  -- comma behind it unless the rest is `last`.
  pub data Items : Type 0 where
    no_items : Bytes → Items
    item : Bytes → Json → Bytes → Items
    items : Bytes → Json → Bytes → Items → Items

  -- `field ws key ws₁ ws₂ v ws₃` is `ws "key" ws₁ : ws₂ v ws₃`.
  pub data Fields : Type 0 where
    no_fields : Bytes → Fields
    field : Bytes → Bytes → Bytes → Bytes → Json → Bytes → Fields
    fields : Bytes → Bytes → Bytes → Bytes → Json → Bytes → Fields → Fields

abbrev pub quoted : Bytes → Bytes → Bytes
quoted s rest = b'"' ∷ (s ++ (b'"' ∷ rest))

-- The text of a tree, in front of what follows it.
abbrev mutual
  pub print : Json → Bytes → Bytes
  print (str s) rest = quoted s rest
  print (token t) rest = t ++ rest
  print (arr xs) rest = b'[' ∷ print_items xs (b']' ∷ rest)
  print (obj fs) rest = b'{' ∷ print_fields fs (b'}' ∷ rest)

  pub print_items : Items → Bytes → Bytes
  print_items (no_items ws) rest = ws ++ rest
  print_items (item ws v ws') rest = ws ++ print v (ws' ++ rest)
  print_items (items ws v ws' xs) rest = ws ++ print v (ws' ++ (b',' ∷ print_items xs rest))

  pub print_fields : Fields → Bytes → Bytes
  print_fields (no_fields ws) rest = ws ++ rest
  print_fields (field ws k ws1 ws2 v ws3) rest =
      ws ++ quoted k (ws1 ++ (b':' ∷ (ws2 ++ print v (ws3 ++ rest))))
  print_fields (fields ws k ws1 ws2 v ws3 fs) rest =
      ws ++ quoted k (ws1 ++ (b':' ∷ (ws2 ++ print v (ws3 ++ (b',' ∷ print_fields fs rest)))))

-- The layout is white space, string contents are escaped, and tokens are non-empty.
abbrev mutual
  pub IsJson : Json → Type 0
  IsJson (str s) = IsContent s
  IsJson (token t) = All IsTokenByte t × (t ≢ [])
  IsJson (arr xs) = IsItems xs
  IsJson (obj fs) = IsFields fs

  pub IsItems : Items → Type 0
  IsItems (no_items ws) = IsWs ws
  IsItems (item ws v ws') = IsWs ws × IsJson v × IsWs ws'
  IsItems (items ws v ws' xs) = IsWs ws × IsJson v × IsWs ws' × IsItems xs

  pub IsFields : Fields → Type 0
  IsFields (no_fields ws) = IsWs ws
  IsFields (field ws k ws1 ws2 v ws3) =
      IsWs ws × IsContent k × IsWs ws1 × IsWs ws2 × IsJson v × IsWs ws3
  IsFields (fields ws k ws1 ws2 v ws3 fs) =
      IsWs ws × IsContent k × IsWs ws1 × IsWs ws2 × IsJson v × IsWs ws3 × IsFields fs
