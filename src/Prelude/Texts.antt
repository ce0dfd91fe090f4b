-- ===== src/Prelude/Texts.antt =====
-- Byte strings as lists of numbers, and the codes of a text literal.
use Prim.Native.Nat.{ℕ}
use Prim.Native.Char.{code}
use Prim.Native.String.{String}
use mathlib.Core.Path.{◌≡◌, refl}
use mathlib.Core.Logic.{inl, inr}
use mathlib.Core.Bool.{Bool, true, false, ◌&&◌}
use mathlib.Core.List.{List, [], ◌∷◌}
use native.Mathlib.Omega.{arith}
use statico.Prelude.Tests.{◌==◌, ==_iff, Bool-cases}

abbrev pub Bytes : Type 0
Bytes = List ℕ

-- The code points of a text: its bytes, since every literal here is ASCII.
abbrev pub codes : String → Bytes
codes String.[] = []
codes (String.◌∷◌ c s) = code c ∷ codes s

-- Equality of slices, as `==` on `&[u8]` and on `str`.
unfoldable pub equal : Bytes → Bytes → Bool
equal (c ∷ s) (d ∷ t) = elim (c == d) [ true ↦ equal s t | false ↦ false ]
equal [] (d ∷ t) = false
equal (c ∷ s) [] = false
equal [] [] = true

-- Slices that are equal byte for byte are one list.
pub eq_of_equal : (s t : Bytes) → equal s t ≡ true → s ≡ t
unfolding equal
eq_of_equal [] [] h = refl
eq_of_equal [] (d ∷ t) h = absurd (ground arith)
eq_of_equal (c ∷ s) [] h = absurd (ground arith)
eq_of_equal (c ∷ s) (d ∷ t) h = elim (Bool-cases (c == d)) [
  | inr m ↦ absurd (ground arith)
  | inl y ↦
      let same : c ≡ d = (==_iff c d).0 y in
      let tails : equal s t ≡ true = ground arith in λ i. same i ∷ eq_of_equal s t tails i
]

-- `starts_with`, on the pattern and the text.
unfoldable pub starts_with : Bytes → Bytes → Bool
starts_with [] s = true
starts_with (p ∷ ps) [] = false
starts_with (p ∷ ps) (c ∷ s) = p == c && starts_with ps s
