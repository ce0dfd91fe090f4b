-- ===== src/Mcp/Scan/Bounds.antt =====
-- Where the scanner's positions lie: no slice it takes is out of range, and every loop ends.
use statico.Prelude.{
  ℕ, zero, suc, ◌+◌, ◌≤◌, ◌<◌, [], ◌∷◌, ◌≡◌, arith, length, drop, get_elem?, length-drop, Bytes,
  ◌==◌, if◌then◌else◌,
}
use statico.Mcp.Scan.{
  found, ◌>>=◌, Round, next, return, ws_end, skip_ws, string_end, parse_string, token_end,
  container_round, container_loop, skip_value, value_end,
}
use statico.Mcp.Scan.At.{get_elem?-lt}
use statico.Mcp.Scan.Holds.{Holds, Holds-bind, Holds-ask, Holds-map}

ws_end_bounds : (rest : Bytes) (i : ℕ) → (i ≤ ws_end rest i) × (ws_end rest i ≤ i + length rest)
unfolding ws_end
ws_end_bounds [] i = omega arith
ws_end_bounds (b ∷ rest) i = ground (arith, ws_end_bounds rest (i + 1))

pub skip_ws_bounds : (body : Bytes) (i : ℕ) → i ≤ skip_ws body i
unfolding skip_ws
skip_ws_bounds body i = omega (arith, ws_end_bounds (drop i body) i)

pub skip_ws-le : (body : Bytes) (i : ℕ) → i ≤ length body → skip_ws body i ≤ length body
unfolding skip_ws
skip_ws-le body i h = omega (arith, ws_end_bounds (drop i body) i, length-drop i body)

pub token_end_bounds :
    (rest : Bytes) (i : ℕ) → (i ≤ token_end rest i) × (token_end rest i ≤ i + length rest)
unfolding token_end
token_end_bounds [] i = omega arith
token_end_bounds (b ∷ rest) i = ground (arith, token_end_bounds rest (i + 1))

-- A string: its content starts behind the opening quote, and its end is in the body.
abbrev pub IsSpan : ℕ → ℕ → ℕ × ℕ × ℕ → Type 0
IsSpan from bound (s, e, n) = (s ≡ from) × (s ≤ e) × (n ≡ e + 1) × (n ≤ bound)

string_end-Holds :
    (rest : Bytes) (start i bound : ℕ)
    → start ≤ i
    → i + length rest ≤ bound
    → Holds (IsSpan start bound) (string_end rest start i)
unfolding string_end
string_end-Holds [] start i bound h k = tt
string_end-Holds (c ∷ []) start i bound h k = ground arith
string_end-Holds (c ∷ d ∷ rest) start i bound h k = ground (
  arith,
  string_end-Holds rest start (i + 2) bound,
  string_end-Holds (d ∷ rest) start (i + 1) bound,
)

-- `parse_string` ends, and what it finds can be sliced.
pub parse_string-Holds :
    (body : Bytes) (pos : ℕ) → Holds (IsSpan (pos + 1) (length body)) (parse_string body pos)
unfolding parse_string
parse_string-Holds body pos = Holds-ask _ (get_elem? body pos) _ (λ c e. ground (
  arith,
  get_elem?-lt body pos c e,
  length-drop (pos + 1) body,
  string_end-Holds (drop (pos + 1) body) (pos + 1) (pos + 1) (length body),
))

-- A round of the container loop moves on, or returns the next position.
abbrev IsRound : ℕ → ℕ → Round (ℕ × ℕ) ℕ → Type 0
IsRound i bound (next (i', _)) = (i < i') × (i' ≤ bound)
IsRound i bound (return n) = (i < n) × (n ≤ bound)

container_round-Holds :
    (body : Bytes) (close i depth b : ℕ)
    → i < length body
    → Holds (IsRound i (length body)) (container_round body close i depth b)
unfolding container_round
container_round-Holds body close i depth b lt = ground (arith, string_round)
  where
    string_round :
        Holds (IsRound i (length body)) (parse_string body i >>= (λ r. found (next (r.2, depth))))
    string_round =
        Holds-bind _ _ (parse_string body i) _ (parse_string-Holds body i) (λ r e h. omega arith)

-- The position behind a value.
abbrev pub IsBehind : ℕ → ℕ → ℕ → Type 0
IsBehind i bound n = (i < n) × (n ≤ bound)

container_loop-Holds :
    (fuel : ℕ) (body : Bytes) (close i depth : ℕ)
    → length body < i + fuel
    → i ≤ length body
    → Holds (IsBehind i (length body)) (container_loop fuel body close i depth)
unfolding container_loop
container_loop-Holds zero body close i depth h k = absurd (omega arith)
container_loop-Holds (suc fuel) body close i depth h k = Holds-ask _ (get_elem? body i) _ (λ b e.
    Holds-bind _ _ (container_round body close i depth b) _
      (container_round-Holds body close i depth b (get_elem?-lt body i b e))
      (λ r _ m. after (container_loop-Holds fuel body close) r m))
  where
    after :
        ((i' depth' : ℕ)
          → length body < i' + fuel
          → i' ≤ length body
          → Holds (IsBehind i' (length body)) (container_loop fuel body close i' depth'))
        → (r : Round (ℕ × ℕ) ℕ) → IsRound i (length body) r
        → Holds (IsBehind i (length body)) (elim r [
          | next (i', depth') ↦ container_loop fuel body close i' depth'
          | return n ↦ found n
        ])
    after ih (next (i', depth')) m =
        Holds-map (IsBehind i' (length body)) (IsBehind i (length body)) _
          (ih i' depth' (omega arith) m.1) (λ n b. omega arith)
    after ih (return n) m = m

-- `skip_value` ends on every body; from a position in the body it does not go back nor leave it.
pub skip_value-Holds :
    (body : Bytes) (pos : ℕ) → Holds (λ n. (pos ≤ n) × (n ≤ length body)) (skip_value body pos)
unfolding skip_value value_end
skip_value-Holds body pos = Holds-ask _ (get_elem? body (skip_ws body pos)) _ (λ c e. ground (
  arith,
  skip_ws_bounds body pos,
  get_elem?-lt body i c e,
  string_value,
  container (if c == b'{' then b'}' else b']'),
  token_end_bounds (drop i body) i,
  length-drop i body,
))
  where
    i : ℕ
    i = skip_ws body pos

    string_value :
        Holds (λ n. (pos ≤ n) × (n ≤ length body)) (parse_string body i >>= (λ r. found r.2))
    string_value =
        Holds-bind _ _ (parse_string body i) _ (parse_string-Holds body i)
          (λ r e h. omega (arith, skip_ws_bounds body pos))

    container :
        (close : ℕ)
        → i < length body
        → Holds
            (λ n. (pos ≤ n) × (n ≤ length body))
            (container_loop (length body) body close (i + 1) 1)
    container close lt =
        Holds-map (IsBehind (i + 1) (length body)) (λ n. (pos ≤ n) × (n ≤ length body)) _
          (container_loop-Holds (length body) body close (i + 1) 1 (omega arith) (omega arith))
          (λ n h. omega (arith, skip_ws_bounds body pos))
