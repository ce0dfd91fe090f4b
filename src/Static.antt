-- ===== src/Static.antt =====
-- src/tokio.rs and src/smol.rs: the services that answer every request with the configured response,
-- from a request's head to the response. What a service does besides answering is a list of actions in
-- order. Appending a header to a header map, which fails on a name or a value that is not valid, the
-- body type Full and its constructor, the timer of a delayed body, the reason phrases, the decimal
-- logarithm and the styles of the logs are parameters.
pub mod Actions
pub mod Answers
pub mod Metering
mod Tests
use statico.Prelude.{
  ℕ, zero, suc, ◌+◌, ◌%◌, ◌^◌, Bool, true, false, ◌||◌, List, [], ◌∷◌, ◌++◌, Option, none, some,
  ◌⊎◌, inl, inr, Bytes, length, codes, decimal, ltb, if◌then◌else◌,
}
use statico.Http.{
  Headers, Request, Response, Version, http_11, request_head_size, response_head_size,
  chunked_body_wire_size,
}
use statico.Config.{ServerConfig}
use statico.Pretty.{
  Collected, collect_request, is_empty, newline, format_request, format_response, format_headers,
}
use statico.Mcp.Service.{is_chunked}
use statico.Delayed.{DelayedBody, new}

-- A recorded size, a printed text, and a delay of the answer.
pub data ServiceEvent (D : Type 0) : Type 0 where
  request_recorded response_recorded : ℕ → ServiceEvent D
  printed : Bytes → ServiceEvent D
  delayed : D → ServiceEvent D

-- The options that a service is set up with. Its counters are those of its port if it meters.
pub record ServiceOptions (D : Type 0) : Type 0 where
  pub verbose : ℕ
  pub delay : Option D
  pub body_delay : Option D
  pub meter : Bool

-- A service of smol.rs panics, or answers with the result of the builder.
pub data SmolAnswer (A : Type 0) : Type 0 where
  panicked : SmolAnswer A
  answered : Option A → SmolAnswer A

abbrev pub when {ℓ} : {A : Type ℓ} → Bool → A → List A
when b a = if b then a ∷ [] else []

-- `ok`
abbrev pub ok {ℓ κ} : {E : Type ℓ} {A : Type κ} → E ⊎ A → Option A
ok (inl e) = none
ok (inr a) = some a

module _ (append : Bytes → Bytes → Headers → Option Headers) where
  -- `builder.header(k, v)`: a builder that has failed stays so.
  abbrev pub header : Bytes → Bytes → Option Headers → Option Headers
  header k v none = none
  header k v (some headers) = append k v headers

  -- The loop over the configured headers.
  abbrev pub with_headers : Headers → Option Headers → Option Headers
  with_headers [] builder = builder
  with_headers ((k, v) ∷ configured) builder = with_headers configured (header k v builder)

  -- The headers of the response: the configured ones, and the length of a body that is not empty.
  unfoldable pub response_headers : {T : Type 0} → ServerConfig T → Option Headers
  response_headers config =
      let configured = with_headers config.headers (some []) in
      if is_empty config.body
      then configured
      else header (codes "content-length") (decimal (length config.body)) configured

-- The size of a request: its head, and its body when that could be read.
unfoldable pub req_bytes_total : ℕ → Bool → Option Collected → ℕ
req_bytes_total head_size chunked none = head_size
req_bytes_total head_size chunked (some req) =
    let body_bytes = length req.body in
    let body_size = if chunked then chunked_body_wire_size body_bytes else body_bytes in
    (head_size + body_size) % 2 ^ 64

-- `match body_delay`
unfoldable pub delayed_body :
    {D F S : Type 0} → (D → S) → (Bytes → F) → Option D → Bytes → DelayedBody F S ⊎ F
delayed_body sleep new_full none body = inr (new_full body)
delayed_body sleep new_full (some delay) body = inl (new (new_full body) (sleep delay))

abbrev pub execute_delay : {D : Type 0} → Option D → List (ServiceEvent D)
execute_delay none = []
execute_delay (some delay) = delayed delay ∷ []

module _ {D : Type 0} (canonical_reason : ℕ → Option Bytes) (log10_floor : ℕ → ℕ)
    (bold blue reversed : Bytes → Bytes) (version_debug : Version → Bytes)
    (status_display : ℕ → Bytes) (to_str : Bytes → Option Bytes) where
  -- The request as it is printed, and its trailers if it has any. The arrow is U+21A9 in UTF-8.
  unfoldable pub print_request : ℕ → Option Collected → List (ServiceEvent D)
  print_request verbose none = []
  print_request verbose (some req) =
      printed (
        226
        ∷ (134
            ∷ (169
                ∷ (codes " "
                    ++ (bold (codes "request")
                        ++ (codes ":\n"
                            ++ (format_request bold blue reversed version_debug status_display
                                  to_str verbose req.head req.body
                                ++ newline)))))))
      ∷ elim req.trailers [
        | none ↦ []
        | some trailers ↦ printed (format_headers to_str verbose trailers ++ newline) ∷ []
      ]

  -- What is done with a response that could be built, and not with a failed builder. A copy of the
  -- response is printed, with the configured body. The arrow is U+21AA.
  unfoldable pub observe_response :
      {T : Type 0} → ServiceOptions D → ServerConfig T → Option Response → List (ServiceEvent D)
  observe_response s config none = []
  observe_response s config (some resp) =
      when s.meter (
        response_recorded (
          (response_head_size canonical_reason log10_floor resp (length config.body)
            + length config.body)
          % 2 ^ 64))
      ++ when (ltb 0 s.verbose) (
          printed (
            226
            ∷ (134
                ∷ (170
                    ∷ (codes " "
                        ++ (bold (codes "response")
                            ++ (codes ":\n"
                                ++ (format_response bold blue reversed version_debug status_display
                                      to_str s.verbose resp config.body
                                    ++ newline))))))))

  module _ {F S T E : Type 0} (new_full : Bytes → F) (sleep : D → S)
      (append : Bytes → Bytes → Headers → Option Headers) where
    -- A request comes with what reading its body gives. The answer is `none` when the builder fails.
    unfoldable pub tokio_service :
        ServiceOptions D
        → ServerConfig T
        → Request
        → E ⊎ (Bytes × Option Headers)
        → List (ServiceEvent D) × Option (Response × (DelayedBody F S ⊎ F))
    tokio_service s config req incoming =
        let req_version = req.version in
        let head_size = if s.meter then request_head_size req else 0 in
        let chunked = if s.meter then is_chunked to_str req.headers else false in
        let collected_req =
          if s.meter || ltb 0 s.verbose then ok (collect_request req incoming) else none in
        let resp : Option Response = elim (response_headers append config) [
          | none ↦ none
          | some headers ↦
              some (record { version = req_version; status = config.status; headers = headers })
        ] in
        let body = delayed_body sleep new_full s.body_delay config.body in
        (
          when s.meter (request_recorded (req_bytes_total head_size chunked collected_req))
              ++ ((if ltb 0 s.verbose then print_request s.verbose collected_req else [])
                  ++ (execute_delay s.delay ++ observe_response s config resp)),
          elim resp [ none ↦ none | some r ↦ some (r, body) ],
        )

    -- The service of smol.rs leaves the version of the response at the builder's own. Its threads run no
    -- runtime of tokio, outside of which the timer of a delayed body panics when it is made.
    unfoldable pub smol_service :
        ServiceOptions D
        → ServerConfig T
        → Request
        → E ⊎ (Bytes × Option Headers)
        → List (ServiceEvent D) × SmolAnswer (Response × (DelayedBody F S ⊎ F))
    smol_service s config req incoming =
        let head_size = if s.meter then request_head_size req else 0 in
        let chunked = if s.meter then is_chunked to_str req.headers else false in
        let collected_req =
          if s.meter || ltb 0 s.verbose then ok (collect_request req incoming) else none in
        let resp : Option Response = elim (response_headers append config) [
          | none ↦ none
          | some headers ↦
              some (record { version = http_11; status = config.status; headers = headers })
        ] in
        let before =
          when s.meter (request_recorded (req_bytes_total head_size chunked collected_req))
          ++ ((if ltb 0 s.verbose then print_request s.verbose collected_req else [])
              ++ execute_delay s.delay) in
        elim s.body_delay [
          | some delay ↦ (before, panicked)
          | none ↦ (
            before ++ observe_response s config resp,
            answered (elim resp [ none ↦ none | some r ↦ some (r, inr (new_full config.body)) ]),
          )
        ]
