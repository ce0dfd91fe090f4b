-- ===== src/Pretty/Bodies.antt =====
-- A body that is shown with its unprintable bytes in reversed hexadecimal can be read back.
use statico.Prelude.{
  ℕ, zero, suc, ◌+◌, ◌*◌, ◌/◌, ◌%◌, ◌<◌, ◌≤◌, true, false, ◌||◌, [], ◌∷◌, ◌++◌, append_assoc, ◌≡◌,
  refl, ap, ◌∙◌, Bytes, length, drop, drop-length_append, All, digit, ◌==◌, Bool-cases, inl, inr,
  arith, length-append,
}
use statico.Hexdump.{is_ascii_graphic}
use statico.Hexdump.Reader.{digit_value, digit_value-digit}
use statico.Pretty.{is_ascii_whitespace, newline, format_bytes, format_body}

-- The escape character, with which every style of a terminal begins.
abbrev escape : ℕ
escape = 27

-- A text as it stands on the terminal: an escape character starts a style of `opening` further
-- characters, then two digits, then an end of `closing` characters.
abbrev pub read_bytes : ℕ → ℕ → ℕ → Bytes → Bytes
read_bytes opening closing zero s = []
read_bytes opening closing (suc fuel) [] = []
read_bytes opening closing (suc fuel) (c ∷ s) = elim (c == escape) [
  | false ↦ c ∷ read_bytes opening closing fuel s
  | true ↦ elim (drop opening s) [
    | [] ↦ []
    | h ∷ [] ↦ []
    | h ∷ l ∷ rest ↦
        (digit_value h * 16 + digit_value l) ∷ read_bytes opening closing fuel (drop closing rest)
  ]
]

-- A text holds at most as many bytes as characters.
abbrev pub read_text : ℕ → ℕ → Bytes → Bytes
read_text opening closing s = read_bytes opening closing (length s) s

module _ (reversed : Bytes → Bytes) (opening closing : Bytes)
    (reversed-styles : (s : Bytes) → reversed s ≡ escape ∷ (opening ++ (s ++ closing))) where
  abbrev IsShown : ℕ → Type 0
  IsShown b = (is_ascii_graphic b || is_ascii_whitespace b) ≡ true

  shown_no_escape : (b : ℕ) → IsShown b → (b == escape) ≡ false
  unfolding is_ascii_graphic is_ascii_whitespace
  shown_no_escape b h = ground arith

  read_shown :
      (fuel b : ℕ) (s : Bytes)
      → IsShown b
      → read_bytes (length opening) (length closing) (suc fuel) (b ∷ s)
        ≡ b ∷ read_bytes (length opening) (length closing) fuel s
  read_shown fuel b s h = rw (read_bytes, shown_no_escape b h) refl

  hidden_text :
      (h l : ℕ) (s : Bytes)
      → reversed (h ∷ (l ∷ [])) ++ s ≡ escape ∷ (opening ++ (h ∷ (l ∷ (closing ++ s))))
  hidden_text h l s = rw (reversed-styles (h ∷ (l ∷ []))) (simp append_assoc)

  read_hidden :
      (fuel b : ℕ) (s : Bytes)
      → b < 256
      → read_bytes
          (length opening)
          (length closing)
          (suc fuel)
          (reversed (digit (b / 16) ∷ (digit (b % 16) ∷ [])) ++ s)
        ≡ b ∷ read_bytes (length opening) (length closing) fuel s
  read_hidden fuel b s h =
      let value : digit_value (digit (b / 16)) * 16 + digit_value (digit (b % 16)) ≡ b = omega (
        arith,
        digit_value-digit (b / 16) (omega arith),
        digit_value-digit (b % 16) (omega arith),
      ) in
      rw
        (
          hidden_text (digit (b / 16)) (digit (b % 16)) s,
          read_bytes,
          drop-length_append opening (digit (b / 16) ∷ (digit (b % 16) ∷ (closing ++ s))),
          drop-length_append closing s,
        )
        (ap (λ (n : ℕ). n ∷ read_bytes (length opening) (length closing) fuel s) value)

  read_bytes-format_bytes :
      (fuel : ℕ) (body : Bytes)
      → length body < fuel
      → All (λ b. b < 256) body
      → read_bytes (length opening) (length closing) fuel (format_bytes reversed body ++ newline)
        ≡ body ++ newline
  unfolding format_bytes
  read_bytes-format_bytes zero body f all = absurd (omega arith)
  read_bytes-format_bytes (suc zero) [] f all = refl
  read_bytes-format_bytes (suc (suc fuel)) [] f all = refl
  read_bytes-format_bytes (suc fuel) (b ∷ body) f all =
      let rest = format_bytes reversed body in
      let tail = ap (◌∷◌ b) (read_bytes-format_bytes fuel body (omega arith) all.1) in
      elim (Bool-cases (is_ascii_graphic b || is_ascii_whitespace b)) [
        | inl y ↦ rw y (read_shown fuel b (rest ++ newline) y ∙ tail)
        | inr n ↦
            rw (n, append_assoc (reversed (digit (b / 16) ∷ (digit (b % 16) ∷ []))) rest newline)
              (read_hidden fuel b (rest ++ newline) all.0 ∙ tail)
      ]

  length-le-format_bytes : (body : Bytes) → length body ≤ length (format_bytes reversed body)
  unfolding format_bytes
  length-le-format_bytes [] = omega arith
  length-le-format_bytes (b ∷ body) =
      let rest = format_bytes reversed body in
      let hidden = reversed (digit (b / 16) ∷ (digit (b % 16) ∷ [])) in
      elim (Bool-cases (is_ascii_graphic b || is_ascii_whitespace b)) [
        | inl y ↦ rw y (omega (arith, length-le-format_bytes body))
        | inr n ↦ rw n (
            omega (
              arith,
              length-append hidden rest,
              length-le-format_bytes body,
              ap length (reversed-styles (digit (b / 16) ∷ (digit (b % 16) ∷ []))),
            ))
      ]

  -- When a reversed text is the text between an escape sequence and a closing one, a reader that
  -- knows the lengths of both reads every body of bytes, and the line's end, back from the text in
  -- which it is shown.
  pub read_text-format_body :
      (body : Bytes)
      → All (λ b. b < 256) body
      → read_text (length opening) (length closing) (format_body reversed body) ≡ body ++ newline
  unfolding format_body
  read_text-format_body body all =
      read_bytes-format_bytes (length (format_bytes reversed body ++ newline)) body
        (omega
          (arith, length-append (format_bytes reversed body) newline, length-le-format_bytes body))
        all
