-- ===== src/Static/Metering.antt =====
-- What the services record of a request and its response, against the text of HTTP/1 heads.
use statico.Prelude.{
  ℕ, ◌+◌, ◌%◌, ◌^◌, ◌<◌, List, [], ◌∷◌, ◌++◌, Option, none, some, ◌⊎◌, ◌≡◌, Bytes, length, inl, inr,
  if◌then◌else◌, ltb,
}
use statico.Http.{Version, Headers, Request, Response}
use statico.Http.Heads.{request_head, response_head}
use statico.Http.Chunked.{chunked}
use statico.Mcp.Service.{is_chunked}
use statico.Pretty.{Collected}
use statico.Config.{ServerConfig}
use statico.Static.{
  ServiceOptions, ServiceEvent, request_recorded, response_recorded, execute_delay, print_request,
  observe_response,
}
use statico.Static.Actions.{unprinted}
use statico.Static.Answers.{Answer, tokio}

-- The body of a request, as one chunk if the request is chunked; nothing of a body that could not be read.
abbrev pub encoded_body :
    {E : Type 0} → (Bytes → Option Bytes) → Request → E ⊎ (Bytes × Option Headers) → Bytes
encoded_body to_str req (inl e) = []
encoded_body to_str req (inr (body, trailers)) =
    if is_chunked to_str req.headers then chunked body else body

abbrev pub IsSmall : {E : Type 0} → E ⊎ (Bytes × Option Headers) → Type 0
IsSmall (inl e) = Unit
IsSmall (inr (body, trailers)) = length body < 2 ^ 63

module _ {D : Type 0} (canonical_reason : ℕ → Option Bytes) (log10_floor : ℕ → ℕ)
    (bold blue reversed : Bytes → Bytes) (version_debug : Version → Bytes)
    (status_display : ℕ → Bytes) (to_str : Bytes → Option Bytes) where
  abbrev prints_of : ℕ → Option Collected → List (ServiceEvent D)
  prints_of verbose req =
      if ltb 0 verbose
      then print_request canonical_reason log10_floor bold blue reversed version_debug
          status_display to_str verbose req
      else []

  abbrev observe :
      {T : Type 0} → ServiceOptions D → ServerConfig T → Option Response → List (ServiceEvent D)
  observe s config resp =
      observe_response canonical_reason log10_floor bold blue reversed version_debug status_display
        to_str s config resp

  module _ {F S T E : Type 0} (new_full : Bytes → F) (sleep : D → S)
      (append : Bytes → Bytes → Headers → Option Headers) (now : Bytes) where
    -- Apart from what is printed: the request is recorded with the sizes of its head and of its
    -- encoded body, then comes the delay, and then the response is recorded, if it could be built, with
    -- the sizes of its head and of the configured body. It has the version of the request and the
    -- configured status.
    abbrev pub IsMetered :
        Bytes
        → ServiceOptions D
        → ServerConfig T
        → Request
        → E ⊎ (Bytes × Option Headers)
        → Answer D F S
        → Type 0
    IsMetered reason s config req incoming (actions, none) =
        unprinted actions
        ≡ request_recorded
            ((length (request_head req) + length (encoded_body to_str req incoming)) % 2 ^ 64)
          ∷ execute_delay s.delay
    IsMetered reason s config req incoming (actions, some (resp, body)) =
        (resp.version ≡ req.version)
        × (resp.status ≡ config.status)
        × (unprinted actions
            ≡ request_recorded
                ((length (request_head req) + length (encoded_body to_str req incoming)) % 2 ^ 64)
              ∷ (execute_delay s.delay
                  ++ (response_recorded (
                        (length (
                            response_head canonical_reason log10_floor now reason resp
                              (length config.body))
                          + length config.body)
                        % 2 ^ 64)
                      ∷ [])))

    abbrev pub metered :
        ServiceOptions D → ServerConfig T → Request → E ⊎ (Bytes × Option Headers) → Answer D F S
    metered =
        tokio canonical_reason log10_floor bold blue reversed version_debug status_display to_str
          new_full sleep append
