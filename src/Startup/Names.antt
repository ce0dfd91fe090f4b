-- ===== src/Startup/Names.antt =====
-- The names of the runtimes, and the ports as they are written.
use statico.Prelude.{
  ℕ, ◌≤◌, Bool, false, List, [], ◌∷◌, ◌++◌, map, Option, none, some, ◌≡◌, ◌↔◌, refl, sym, ap, ◌∙◌,
  Bytes, codes, decimal, decimal-All, equal, eq_of_equal, ◌==◌, if◌then◌else◌, All, Bool-cases, inl,
  inr, arith,
}
use mathlib.Core.Option.{some-injective}
use statico.Startup.Arguments.{
  Runtime, tokio, tokio_uring, monoio, glommio, smol, compio, runtime_from_str, display_ports,
}

-- The names in the help text.
abbrev pub name : Runtime → Bytes
name tokio = codes "tokio"
name tokio_uring = codes "tokio-uring"
name monoio = codes "monoio"
name glommio = codes "glommio"
name smol = codes "smol"
name compio = codes "compio"

runtime_from_str-name : (r : Runtime) → runtime_from_str (name r) ≡ some r
unfolding runtime_from_str equal
runtime_from_str-name tokio = refl
runtime_from_str-name tokio_uring = refl
runtime_from_str-name monoio = refl
runtime_from_str-name glommio = refl
runtime_from_str-name smol = refl
runtime_from_str-name compio = refl

-- A test that succeeds gives the name, and one that fails leaves the rest.
name_test :
    (s t : Bytes) (a r : Runtime) (rest : Option Runtime)
    → name a ≡ t
    → (rest ≡ some r → s ≡ name r)
    → (if equal s t then some a else rest) ≡ some r
    → s ≡ name r
name_test s t a r rest n rec h = elim (Bool-cases (equal s t)) [
  | inl y ↦
      let here : some a ≡ some r = sym (ap (λ (b : Bool). if b then some a else rest) y) ∙ h in
      eq_of_equal s t y ∙ (sym n ∙ ap name (some-injective a r here))
  | inr m ↦ rec (sym (ap (λ (b : Bool). if b then some a else rest) m) ∙ h)
]

name_of : (s : Bytes) (r : Runtime) → runtime_from_str s ≡ some r → s ≡ name r
unfolding runtime_from_str
name_of s r = name_test s _ tokio r _ refl (
    name_test s _ tokio_uring r _ refl (
      name_test s _ monoio r _ refl (
        name_test s _ glommio r _ refl (
          name_test s _ smol r _ refl
            (name_test s _ compio r none refl (λ h. absurd (ground arith)))))))

-- A text names a runtime exactly if it is that runtime's name.
pub runtime_from_str_name : (s : Bytes) (r : Runtime) → (runtime_from_str s ≡ some r) ↔ (s ≡ name r)
runtime_from_str_name s r =
    (name_of s r, λ (h : s ≡ name r). ap runtime_from_str h ∙ runtime_from_str-name r)

-- The parts of a text between its commas.
abbrev pub begin : ℕ → List Bytes → List Bytes
begin c [] = (c ∷ []) ∷ []
begin c (part ∷ parts) = (c ∷ part) ∷ parts

abbrev pub parts : Bytes → List Bytes
parts [] = [] ∷ []
parts (c ∷ s) = let rest = parts s in if c == b',' then [] ∷ rest else begin c rest

abbrev LacksComma : Bytes → Type 0
LacksComma s = All (λ c. (c == b',') ≡ false) s

parts-alone : (s : Bytes) → LacksComma s → parts s ≡ s ∷ []
parts-alone [] h = refl
parts-alone (c ∷ s) h = rw (parts, h.0, parts-alone s h.1) refl

parts-append : (s t : Bytes) → LacksComma s → parts (s ++ (b',' ∷ t)) ≡ s ∷ parts t
parts-append [] t h = refl
parts-append (c ∷ s) t h = rw (parts, h.0, parts-append s t h.1) refl

digits_lack : (s : Bytes) → All (λ c. 48 ≤ c) s → LacksComma s
digits_lack [] all = tt
digits_lack (c ∷ s) all = (ground arith, digits_lack s all.1)

-- The text of the ports, cut at its commas, is the list of their decimal numbers, in order, for any
-- ports with at least one.
pub parts-display_ports :
    (port : ℕ) (ports : List ℕ) → parts (display_ports (port ∷ ports)) ≡ map decimal (port ∷ ports)
unfolding display_ports
parts-display_ports port [] =
    parts-alone (decimal port) (digits_lack (decimal port) (decimal-All port))
parts-display_ports port (next ∷ ports) =
    parts-append (decimal port) (display_ports (next ∷ ports))
      (digits_lack (decimal port) (decimal-All port))
    ∙ ap (◌∷◌ (decimal port)) (parts-display_ports next ports)
