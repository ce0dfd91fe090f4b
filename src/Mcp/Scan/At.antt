-- ===== src/Mcp/Scan/At.antt =====
-- Reading a body by what it has from a position on.
use statico.Prelude.{
  ℕ, zero, suc, ◌+◌, ◌-◌, ◌<◌, [], ◌∷◌, ◌++◌, none, some, ◌≡◌, refl, ◌∙◌, ap, sym, arith, length,
  drop, get_elem?, length-drop, drop-nil, drop-length_append, take-length_append, Bytes,
}
use statico.Mcp.Scan.{slice}

-- `body` has `suffix` from position `i` on.
abbrev pub At : Bytes → ℕ → Bytes → Type 0
At body i suffix = drop i body ≡ suffix

drop-drop : (m n : ℕ) (xs : Bytes) → drop n (drop m xs) ≡ drop (m + n) xs
drop-drop zero n xs = let e : 0 + n ≡ n = omega arith in rw e
drop-drop (suc m) n [] = let e : suc m + n ≡ suc (m + n) = omega arith in rw e (drop-nil n)
drop-drop (suc m) n (x ∷ xs) =
    let e : suc m + n ≡ suc (m + n) = omega arith in rw e (drop-drop m n xs)

get_elem?-drop : (i : ℕ) (body : Bytes) → get_elem? body i ≡ get_elem? (drop i body) 0
get_elem?-drop zero [] = refl
get_elem?-drop zero (x ∷ xs) = refl
get_elem?-drop (suc i) [] = refl
get_elem?-drop (suc i) (x ∷ xs) = get_elem?-drop i xs

-- Every position has a suffix, so `At` can be had for nothing.
pub At-drop : (body : Bytes) (i : ℕ) → At body i (drop i body)
At-drop body i = refl

pub At-length :
    (body : Bytes) (i : ℕ) (suffix : Bytes) → At body i suffix → length body - i ≡ length suffix
At-length body i suffix at = sym (length-drop i body) ∙ ap length at

pub get_elem?-At :
    (body : Bytes) (i c : ℕ) (rest : Bytes) → At body i (c ∷ rest) → get_elem? body i ≡ some c
get_elem?-At body i c rest at = rw (get_elem?-drop i body, at)

pub get_elem?-At_end : (body : Bytes) (i : ℕ) → At body i [] → get_elem? body i ≡ none
get_elem?-At_end body i at = rw (get_elem?-drop i body, at)

pub At-append :
    (body : Bytes) (i : ℕ) (front back : Bytes)
    → At body i (front ++ back)
    → At body (i + length front) back
At-append body i front back at =
    sym (drop-drop i (length front) body) ∙ rw at (drop-length_append front back)

pub At-suc : (body : Bytes) (i c : ℕ) (rest : Bytes) → At body i (c ∷ rest) → At body (i + 1) rest
At-suc body i c rest at = sym (drop-drop i 1 body) ∙ rw at

pub slice-At :
    (body : Bytes) (i : ℕ) (front back : Bytes)
    → At body i (front ++ back)
    → slice body i (i + length front) ≡ front
slice-At body i front back at =
    let e : i + length front - i ≡ length front = omega arith in
    rw (e, at) (take-length_append front back)

-- A byte read at `i` is the head of the suffix.
pub get_elem?-head :
    (body : Bytes) (i c : ℕ) → get_elem? body i ≡ some c → (rest : Bytes) × At body i (c ∷ rest)
get_elem?-head [] zero c e = cc
get_elem?-head [] (suc i) c e = cc
get_elem?-head (x ∷ xs) zero c e = (xs, cc)
get_elem?-head (x ∷ xs) (suc i) c e = get_elem?-head xs i c e

pub At-get_elem? :
    (body : Bytes) (i c : ℕ) → get_elem? body i ≡ some c → (rest : Bytes) × At body i (c ∷ rest)
At-get_elem? = get_elem?-head

pub get_elem?-lt : (body : Bytes) (i c : ℕ) → get_elem? body i ≡ some c → i < length body
get_elem?-lt [] i c e = absurd (cc)
get_elem?-lt (x ∷ xs) zero c e = omega arith
get_elem?-lt (x ∷ xs) (suc i) c e = omega (arith, get_elem?-lt xs i c e)

-- Behind a string literal.
pub quoted-At :
    (body : Bytes) (i : ℕ) (s rest : Bytes)
    → At body i (b'"' ∷ (s ++ (b'"' ∷ rest)))
    → At body (i + 1 + length s + 1) rest
quoted-At body i s rest at =
    At-suc body (i + 1 + length s) b'"' rest
      (At-append body (i + 1) s (b'"' ∷ rest) (At-suc body i b'"' (s ++ (b'"' ∷ rest)) at))
