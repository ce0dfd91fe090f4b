-- ===== src/Pretty.antt =====
-- src/pretty.rs: the texts in which requests and responses are logged, by verbosity; and the two
-- functions of src/mcp.rs that log. Writing into the formatter of a string does not fail, so the
-- texts are returned. The styles of crate owo_colors, the `Debug` of a version and the `Display` of a
-- status (crate http), `to_str` on a header's value and `from_utf8_lossy` are parameters.
pub mod Bodies
pub mod Levels
mod Tests
use statico.Prelude.{
  ℕ, zero, suc, Bool, true, false, not, ◌&&◌, ◌||◌, List, [], ◌∷◌, ◌++◌, Option, none, some, Bytes,
  codes, decimal, ltb, leb, ◌==◌, ◌/◌, ◌%◌, digit, ◌⊎◌, inl, inr, if◌then◌else◌,
}
use statico.Http.{Version, Headers, Request, Response}
use statico.Hexdump.{is_ascii_graphic, format_body_hexdump}

-- `is_ascii_whitespace`: a blank, a tab, a line feed, a form feed or a carriage return.
unfoldable pub is_ascii_whitespace : ℕ → Bool
is_ascii_whitespace b = b == 32 || (b == 9 || (b == 10 || (b == 12 || b == 13)))

-- `is_empty` of the trait BodyBytes
abbrev pub is_empty : Bytes → Bool
is_empty [] = true
is_empty (b ∷ body) = false

abbrev pub or_text : Bytes → Option Bytes → Bytes
or_text default none = default
or_text default (some s) = s

abbrev pub newline : Bytes
newline = 10 ∷ []

-- The head of a request as crate httparse gives it.
pub record FullRequest : Type 0 where
  pub method : Option Bytes
  pub path : Option Bytes
  pub version : Option ℕ
  pub headers : Headers
  pub body : Bytes

-- A request whose body was read to its end.
pub record Collected : Type 0 where
  pub head : Request
  pub body : Bytes
  pub trailers : Option Headers

-- `collect_request`, by what collecting the body gave: its bytes and trailers, or an error.
unfoldable pub collect_request {ℓ} :
    {E : Type ℓ} → Request → E ⊎ (Bytes × Option Headers) → E ⊎ Collected
collect_request req (inl e) = inl e
collect_request req (inr (body, trailers)) =
    inr (record { head = req; body = body; trailers = trailers })

module _ (reversed : Bytes → Bytes) where
  -- The loop of `format_body`.
  unfoldable pub format_bytes : Bytes → Bytes
  format_bytes [] = []
  format_bytes (byte ∷ body) =
      (if is_ascii_graphic byte || is_ascii_whitespace byte
        then byte ∷ []
        else reversed (digit (byte / 16) ∷ (digit (byte % 16) ∷ [])))
      ++ format_bytes body

  unfoldable pub format_body : Bytes → Bytes
  format_body body = format_bytes body ++ newline

  -- The end of all three texts: a body is shown from verbosity 3 on, and only if it is not empty.
  unfoldable pub body_section : ℕ → Bytes → Bytes
  body_section verb body =
      if ltb 2 verb && not (is_empty body)
      then newline ++ (if verb == 3 then format_body body else format_body_hexdump body)
      else []

module _ (to_str : Bytes → Option Bytes) where
  abbrev pub header_lines : Headers → Bytes
  header_lines [] = []
  header_lines ((name, value) ∷ headers) =
      name
      ++ (codes ": "
          ++ (or_text (codes "<binary>") (to_str value) ++ (newline ++ header_lines headers)))

  -- `Display` of a header map.
  unfoldable pub format_headers : ℕ → Headers → Bytes
  format_headers verb headers = if ltb 1 verb then header_lines headers else []

module _ (bold blue reversed : Bytes → Bytes) (from_utf8_lossy : Bytes → Bytes) where
  abbrev pub lossy_lines : Headers → Bytes
  lossy_lines [] = []
  lossy_lines ((name, value) ∷ headers) =
      name ++ (codes ": " ++ (from_utf8_lossy value ++ (newline ++ lossy_lines headers)))

  -- `Display` of a request that crate httparse has parsed.
  unfoldable pub format_full_request : ℕ → FullRequest → Bytes
  format_full_request verb req =
      blue (bold (or_text (codes "UNKNOWN") req.method))
      ++ (codes " "
          ++ (or_text (codes "/") req.path
              ++ (codes " HTTP/1."
                  ++ (decimal (elim req.version [ none ↦ 1 | some v ↦ v ])
                      ++ (newline
                          ++ ((if ltb 1 verb then lossy_lines req.headers else [])
                              ++ body_section reversed verb req.body))))))

module _ (bold blue reversed : Bytes → Bytes) (version_debug : Version → Bytes)
    (status_display : ℕ → Bytes) (to_str : Bytes → Option Bytes) where
  -- `Display` of a request.
  unfoldable pub format_request : ℕ → Request → Bytes → Bytes
  format_request verb req body =
      blue (bold req.method)
      ++ (codes " "
          ++ (req.uri
              ++ (codes " "
                  ++ (version_debug req.version
                      ++ (newline
                          ++ (format_headers to_str verb req.headers
                              ++ (newline ++ body_section reversed verb body)))))))

  -- `Display` of a response.
  unfoldable pub format_response : ℕ → Response → Bytes → Bytes
  format_response verb res body =
      version_debug res.version
      ++ (codes " "
          ++ (bold (status_display res.status)
              ++ (newline
                  ++ (format_headers to_str verb res.headers
                      ++ (newline ++ body_section reversed verb body)))))

  -- What mcp.rs prints: an arrow (U+21A9, U+21AA) in UTF-8, a title and the text.
  unfoldable pub log_request_head : Request → ℕ → Bytes
  log_request_head req verbose =
      226
      ∷ (134
          ∷ (169
              ∷ (codes " "
                  ++ (bold (codes "request")
                      ++ (codes ":\n"
                          ++ (blue (bold req.method)
                              ++ (codes " "
                                  ++ (req.uri
                                      ++ (codes " "
                                          ++ (version_debug req.version
                                              ++ (newline
                                                  ++ (if ltb 1 verbose
                                                      then header_lines to_str req.headers
                                                      else []))))))))))))

  unfoldable pub log_response : Response → Bytes → ℕ → Bytes
  log_response resp body verbose =
      226
      ∷ (134
          ∷ (170
              ∷ (codes " "
                  ++ (bold (codes "response")
                      ++ (codes ":\n" ++ (format_response verbose resp body ++ newline))))))
