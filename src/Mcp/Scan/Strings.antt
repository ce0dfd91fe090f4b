-- ===== src/Mcp/Scan/Strings.antt =====
-- Whatever the body, what `parse_string` finds is a string literal with complete escapes.
use statico.Prelude.{
  ℕ, some, ◌+◌, false, [], ◌∷◌, ◌++◌, ◌≡◌, refl, sym, ◌∙◌, ap, Bytes, arith, length, drop,
  get_elem?, ◌==◌, ==_iff, inl, inr, Bool-cases,
}
use statico.Mcp.Scan.{string_end, parse_string}
use statico.Mcp.Scan.At.{At, At-get_elem?, At-suc}
use statico.Mcp.Scan.Holds.{Holds, Holds-ask, Holds-map}
use statico.Mcp.Json.{IsContent, nil, plain, escape, quoted}

-- `span` is that of a string with content `text`, read from `from` on, and `rest` stands behind it.
pub record Literal (from start : ℕ) (suffix : Bytes) (span : ℕ × ℕ × ℕ) : Type 0 where
  pub text : Bytes
  pub rest : Bytes
  pub splits : suffix ≡ text ++ (b'"' ∷ rest)
  pub escaped : IsContent text
  pub from_start : span.0 ≡ start
  pub to_end : span.1 ≡ from + length text
  pub next_at : span.2 ≡ from + length text + 1

Literal-plain :
    {start : ℕ} {suffix : Bytes} {span : ℕ × ℕ × ℕ} (i c : ℕ)
    → (c == b'"') ≡ false
    → (c == b'\\') ≡ false
    → Literal (i + 1) start suffix span
    → Literal i start (c ∷ suffix) span
Literal-plain i c q b l = record {
  text = c ∷ l.text;
  rest = l.rest;
  splits = ap (◌∷◌ c) l.splits;
  escaped = plain q b l.escaped;
  from_start = l.from_start;
  to_end = omega (arith, l.to_end);
  next_at = omega (arith, l.next_at);
}

Literal-escape :
    {start : ℕ} {suffix : Bytes} {span : ℕ × ℕ × ℕ} (i c d : ℕ)
    → c ≡ b'\\'
    → Literal (i + 2) start suffix span
    → Literal i start (c ∷ d ∷ suffix) span
Literal-escape i c d e l = record {
  text = b'\\' ∷ d ∷ l.text;
  rest = l.rest;
  splits = rw (e, l.splits);
  escaped = escape l.escaped;
  from_start = l.from_start;
  to_end = omega (arith, l.to_end);
  next_at = omega (arith, l.next_at);
}

Literal-quote :
    (start i c : ℕ) (suffix : Bytes) → c ≡ b'"' → Literal i start (c ∷ suffix) (start, i, i + 1)
Literal-quote start i c suffix e = record {
  text = [];
  rest = suffix;
  splits = ap (λ x. x ∷ suffix) e;
  escaped = nil;
  from_start = refl;
  to_end = omega arith;
  next_at = omega arith;
}

string_end-Literal :
    (suffix : Bytes) (start i : ℕ) → Holds (Literal i start suffix) (string_end suffix start i)
unfolding string_end
string_end-Literal [] start i = tt
string_end-Literal (c ∷ []) start i = elim (Bool-cases (c == b'\\')) [
  | inl b ↦ rw b tt
  | inr b ↦ rw b (elim (Bool-cases (c == b'"')) [
    | inl q ↦ rw q (Literal-quote start i c [] ((==_iff c b'"').0 q))
    | inr q ↦ rw q tt
  ])
]
string_end-Literal (c ∷ d ∷ suffix) start i = elim (Bool-cases (c == b'\\')) [
  | inl b ↦
      rw (b, string_end)
        (Holds-map (Literal (i + 2) start suffix) (Literal i start (c ∷ d ∷ suffix))
          (string_end suffix start (i + 2)) (string_end-Literal suffix start (i + 2))
          (λ span l. Literal-escape i c d ((==_iff c b'\\').0 b) l))
  | inr b ↦
      rw (b, string_end)
        (elim (Bool-cases (c == b'"')) [
          | inl q ↦ rw (q, string_end) (Literal-quote start i c (d ∷ suffix) ((==_iff c b'"').0 q))
          | inr q ↦
              rw (q, string_end)
                (Holds-map (Literal (i + 1) start (d ∷ suffix)) (Literal i start (c ∷ d ∷ suffix))
                  (string_end (d ∷ suffix) start (i + 1))
                  (string_end-Literal (d ∷ suffix) start (i + 1))
                  (λ span l. Literal-plain i c q b l))
        ])
]

-- A string at `pos`: its text stands there in quotes, and the span is that of the text.
pub record Quoted (body : Bytes) (pos : ℕ) (span : ℕ × ℕ × ℕ) : Type 0 where
  pub text : Bytes
  pub rest : Bytes
  pub at : At body pos (quoted text rest)
  pub escaped : IsContent text
  pub from_start : span.0 ≡ pos + 1
  pub to_end : span.1 ≡ pos + 1 + length text
  pub next_at : span.2 ≡ pos + 1 + length text + 1

-- Whatever the body, a string that `parse_string` finds is quoted there and completely escaped.
pub parse_string-Quoted : (body : Bytes) (pos : ℕ) → Holds (Quoted body pos) (parse_string body pos)
unfolding parse_string
parse_string-Quoted body pos = Holds-ask (Quoted body pos) (get_elem? body pos) _ (λ c e.
    elim (Bool-cases (c == b'"')) [
      | inr n ↦ rw n tt
      | inl q ↦ rw q (
          Holds-map (Literal (pos + 1) (pos + 1) (drop (pos + 1) body)) (Quoted body pos)
            (string_end (drop (pos + 1) body) (pos + 1) (pos + 1))
            (string_end-Literal (drop (pos + 1) body) (pos + 1) (pos + 1))
            (go c e ((==_iff c b'"').0 q)))
    ])
  where
    go :
        (c : ℕ)
        → get_elem? body pos ≡ some c
        → c ≡ b'"'
        → (span : ℕ × ℕ × ℕ) → Literal (pos + 1) (pos + 1) (drop (pos + 1) body) span
        → Quoted body pos span
    go c e q span l =
        let (suffix, at) = At-get_elem? body pos c e in
        record {
          text = l.text;
          rest = l.rest;
          at = at ∙ rw (q, sym (At-suc body pos c suffix at), l.splits);
          escaped = l.escaped;
          from_start = l.from_start;
          to_end = l.to_end;
          next_at = l.next_at;
        }
