-- ===== src/Mcp/Scan.antt =====
-- The hand-written JSON scanner of src/mcp.rs: `is_ws`, `skip_ws`, `parse_string` and `skip_value`.
-- A byte slice is a list of numbers and a position is an index into the whole body, as in the
-- source. A loop `while i < body.len()` recurs on what the body has from `i` on, or takes fuel
-- where a callee moves the position; `stuck` is no Rust value: the fuel ran out.
pub mod Holds
pub mod At
pub mod Bounds
pub mod Tokens
pub mod Containers
pub mod Values
pub mod Strings
use statico.Prelude.{
  ℕ, zero, suc, ◌+◌, ◌-◌, ◌%◌, ◌^◌, Bool, true, false, not, ◌&&◌, ◌||◌, List, [], ◌∷◌, Option, none,
  some, ◌≡◌, Bytes, get_elem?, drop, take, length, ◌==◌, if◌then◌else◌,
}

-- `Option` with the loops' fuel made visible.
pub data Scan {ℓ} (A : Type ℓ) : Type ℓ where
  found : A → Scan A
  absent : Scan A
  stuck : Scan A

infixl 5 ◌>>=◌
abbrev pub ◌>>=◌ {ℓ κ} : {A : Type ℓ} {B : Type κ} → Scan A → (A → Scan B) → Scan B
found a >>= f = f a
absent >>= f = absent
stuck >>= f = stuck

-- `o?`
abbrev pub ask {ℓ} : {A : Type ℓ} → Option A → Scan A
ask none = absent
ask (some a) = found a

-- `&body[from..to]`
abbrev pub slice : Bytes → ℕ → ℕ → Bytes
slice body from to = take (to - from) (drop from body)

unfoldable pub is_ws : ℕ → Bool
is_ws b = b == b' ' || b == 9 || b == 10 || b == 13

-- The loop of `skip_ws`, on what the body has from `i` on.
unfoldable pub ws_end : Bytes → ℕ → ℕ
ws_end [] i = i
ws_end (b ∷ rest) i = elim (is_ws b) [ true ↦ ws_end rest (i + 1) | false ↦ i ]

unfoldable pub skip_ws : Bytes → ℕ → ℕ
skip_ws body i = ws_end (drop i body) i

-- The loop of `parse_string`. A backslash moves two bytes on, past the end if it is the last.
unfoldable pub string_end : Bytes → ℕ → ℕ → Scan (ℕ × ℕ × ℕ)
string_end [] start i = absent
string_end (c ∷ []) start i =
    if c == b'\\' then absent else if c == b'"' then found (start, i, i + 1) else absent
string_end (c ∷ d ∷ rest) start i = elim (c == b'\\') [
  | true ↦ string_end rest start (i + 2)
  | false ↦ elim (c == b'"') [
    | true ↦ found (start, i, i + 1)
    | false ↦ string_end (d ∷ rest) start (i + 1)
  ]
]

unfoldable pub parse_string : Bytes → ℕ → Scan (ℕ × ℕ × ℕ)
parse_string body pos = do
  c ← ask (get_elem? body pos)
  if not (c == b'"') then absent else string_end (drop (pos + 1) body) (pos + 1) (pos + 1)

-- `matches!(body[i], b',' | b'}' | b']' | b' ' | b'\t' | b'\n' | b'\r')`
unfoldable pub is_delimiter : ℕ → Bool
is_delimiter c = c == b',' || c == b'}' || c == b']' || c == b' ' || c == 9 || c == 10 || c == 13

-- The loop over a number, `true`, `false` or `null`.
unfoldable pub token_end : Bytes → ℕ → ℕ
token_end [] i = i
token_end (c ∷ rest) i = elim (is_delimiter c) [ true ↦ i | false ↦ token_end rest (i + 1) ]

-- How one round of a loop ends: the loop goes on with a new state, or returns.
pub data Round {ℓ κ} (S : Type ℓ) (R : Type κ) : Type (ℓ ⊔ κ) where
  next : S → Round S R
  return : R → Round S R

-- One round of the loop over the inside of `{…}` or `[…]`, at the byte `b` of position `i`.
-- `depth` is a `usize`: it wraps, as the release profile has no overflow checks.
unfoldable pub container_round : Bytes → ℕ → ℕ → ℕ → ℕ → Scan (Round (ℕ × ℕ) ℕ)
container_round body close i depth b =
    if b == b'"'
    then (do (_, _, after) ← parse_string body i; found (next (after, depth)))
    else if b == b'{' || b == b'['
    then found (next (i + 1, (depth + 1) % 2 ^ 64))
    else if b == b'}' || b == b']'
    then (let shallower = (depth + 2 ^ 64 - 1) % 2 ^ 64 in
        if b == close && shallower == 0
        then found (return (i + 1))
        else found (next (i + 1, shallower)))
    else found (next (i + 1, depth))

unfoldable pub container_loop : ℕ → Bytes → ℕ → ℕ → ℕ → Scan ℕ
container_loop zero body close i depth = stuck
container_loop (suc fuel) body close i depth = do
  b ← ask (get_elem? body i)
  r ← container_round body close i depth b
  elim r [ next (i', depth') ↦ container_loop fuel body close i' depth' | return n ↦ found n ]

-- `skip_value` from the value's first byte on.
unfoldable pub value_end : Bytes → ℕ → Scan ℕ
value_end body i = do
  c ← ask (get_elem? body i)
  if c == b'"'
      then (do (_, _, after) ← parse_string body i; found after)
      else if c == b'{' || c == b'['
      then container_loop (length body) body (if c == b'{' then b'}' else b']') (i + 1) 1
      else found (token_end (drop i body) i)

unfoldable pub skip_value : Bytes → ℕ → Scan ℕ
skip_value body pos = value_end body (skip_ws body pos)
