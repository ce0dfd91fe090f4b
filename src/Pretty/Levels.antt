-- ===== src/Pretty/Levels.antt =====
-- What each verbosity shows of a body: nothing, the text with its unprintable bytes marked, or the
-- hexadecimal dump.
use statico.Prelude.{
  ℕ, ◌-◌, ◌<◌, [], ◌∷◌, ◌++◌, append_assoc, append-nil, ◌≡◌, refl, ap, ◌∙◌, sym, Bytes, Option,
  none, some, decimal, length, take, take-length_append, drop, All, codes, ltb, ◌==◌, if◌then◌else◌,
  Bool-cases, inl, inr, arith, length-append,
}
use statico.Http.{Version, Request, Response}
use statico.Hexdump.Reader.{read_dump}
use statico.Hexdump.RoundTrip.{read_dump-format_body_hexdump}
use statico.Pretty.{
  newline, FullRequest, body_section, format_headers, format_request, format_response,
  format_full_request, lossy_lines, or_text,
}
use statico.Pretty.Bodies.{read_text, read_text-format_body}

abbrev pub without_last : Bytes → Bytes
without_last s = take (length s - 1) s

-- The body in what a text of some verbosity has behind that of an empty body.
abbrev pub read_shown : ℕ → ℕ → ℕ → Bytes → Bytes
read_shown opening closing verb shown =
    if ltb 2 verb
    then (if verb == 3
        then without_last (read_text opening closing (drop 1 shown))
        else read_dump (drop 1 shown))
    else shown

-- A text begins as for an empty body, and the rest shows the body from verbosity 3 on, and nothing
-- below.
abbrev pub ShowsBody : ℕ → ℕ → ℕ → Bytes → (Bytes → Bytes) → Type 0
ShowsBody opening closing verb body text =
    (shown : Bytes) × (text body ≡ text [] ++ shown)
    × (read_shown opening closing verb shown ≡ (if ltb 2 verb then body else []))

abbrev pub with_body : FullRequest → Bytes → FullRequest
with_body req body = record {
  method = req.method;
  path = req.path;
  version = req.version;
  headers = req.headers;
  body = body;
}

without_last-append : (s : Bytes) (c : ℕ) → without_last (s ++ (c ∷ [])) ≡ s
without_last-append s c =
    let size : length (s ++ (c ∷ [])) - 1 ≡ length s = omega (arith, length-append s (c ∷ [])) in
    ap (λ (n : ℕ). take n (s ++ (c ∷ []))) size ∙ take-length_append s (c ∷ [])

module _ (reversed : Bytes → Bytes) (opening closing : Bytes)
    (reversed-styles : (s : Bytes) → reversed s ≡ 27 ∷ (opening ++ (s ++ closing))) where
  body_section-nil : (verb : ℕ) → body_section reversed verb [] ≡ []
  unfolding body_section
  body_section-nil verb = elim (Bool-cases (ltb 2 verb)) [ inl y ↦ rw y refl | inr n ↦ rw n refl ]

  read_shown-body_section :
      (verb : ℕ) (body : Bytes)
      → All (λ b. b < 256) body
      → read_shown (length opening) (length closing) verb (body_section reversed verb body)
        ≡ (if ltb 2 verb then body else [])
  unfolding body_section
  read_shown-body_section verb [] all = elim (Bool-cases (ltb 2 verb)) [
    | inr n ↦ rw n refl
    | inl y ↦ rw y (elim (Bool-cases (verb == 3)) [ inl z ↦ rw z refl | inr m ↦ rw m refl ])
  ]
  read_shown-body_section verb (b ∷ body) all = elim (Bool-cases (ltb 2 verb)) [
    | inr n ↦ rw n refl
    | inl y ↦ rw y (elim (Bool-cases (verb == 3)) [
      | inl z ↦ rw z (
          ap without_last
            (read_text-format_body reversed opening closing reversed-styles (b ∷ body) all)
          ∙ without_last-append (b ∷ body) 10)
      | inr m ↦ rw m (read_dump-format_body_hexdump (b ∷ body) all)
    ])
  ]

  -- A text that ends with the section of its body shows the body.
  shows :
      (verb : ℕ) (body : Bytes) (text : Bytes → Bytes) (front : Bytes)
      → All (λ b. b < 256) body
      → ((b : Bytes) → text b ≡ front ++ body_section reversed verb b)
      → ShowsBody (length opening) (length closing) verb body text
  shows verb body text front all split =
      let alone : text [] ≡ front =
        split [] ∙ (ap (◌++◌ front) (body_section-nil verb) ∙ append-nil front) in
      (
        body_section reversed verb body,
        split body ∙ ap (λ (s : Bytes). s ++ body_section reversed verb body) (sym alone),
        read_shown-body_section verb body all,
      )

  module _ (bold blue : Bytes → Bytes) (version_debug : Version → Bytes)
      (status_display : ℕ → Bytes) (to_str : Bytes → Option Bytes)
      (from_utf8_lossy : Bytes → Bytes) where
    abbrev format_full_front : ℕ → FullRequest → Bytes
    format_full_front verb req =
        blue (bold (or_text (codes "UNKNOWN") req.method))
        ++ (32
            ∷ (or_text (codes "/") req.path
                ++ (codes " HTTP/1."
                    ++ (decimal (elim req.version [ none ↦ 1 | some v ↦ v ])
                        ++ (10
                            ∷ (if ltb 1 verb
                                then lossy_lines bold blue reversed from_utf8_lossy req.headers
                                else []))))))

    -- When a reversed text is the text between an escape sequence and a closing one: at every
    -- verbosity, all three texts begin as they do for an empty body; what follows is nothing up to
    -- verbosity 2, and from verbosity 3 on the bytes of the body can be read back from it.
    pub formats-ShowsBody :
        (verb : ℕ) (req : Request) (res : Response) (full : FullRequest) (body : Bytes)
        → All (λ b. b < 256) body
        → ShowsBody
            (length opening)
            (length closing)
            verb
            body
            (format_request bold blue reversed version_debug status_display to_str verb req)
          × ShowsBody
              (length opening)
              (length closing)
              verb
              body
              (format_response bold blue reversed version_debug status_display to_str verb res)
          × ShowsBody
              (length opening)
              (length closing)
              verb
              body
              (λ b. format_full_request bold blue reversed from_utf8_lossy verb (with_body full b))
    unfolding format_request format_response format_full_request
    formats-ShowsBody verb req res full body all = (
      shows verb body
          (format_request bold blue reversed version_debug status_display to_str verb req)
          (blue (bold req.method)
            ++ (32
                ∷ (req.uri
                    ++ (32
                        ∷ (version_debug req.version
                            ++ (10 ∷ (format_headers to_str verb req.headers ++ newline)))))))
          all (λ b. simp append_assoc),
      shows verb body
          (format_response bold blue reversed version_debug status_display to_str verb res)
          (version_debug res.version
            ++ (32
                ∷ (bold (status_display res.status)
                    ++ (10 ∷ (format_headers to_str verb res.headers ++ newline)))))
          all (λ b. simp append_assoc),
      shows verb body
          (λ b. format_full_request bold blue reversed from_utf8_lossy verb (with_body full b))
          (format_full_front verb full) all (λ b. simp append_assoc),
    )
