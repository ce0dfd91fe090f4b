-- ===== src/Static/Answers.antt =====
-- The answers of the two services that are written with crate hyper.
use statico.Prelude.{
  ℕ, Bool, append_assoc, ◌||◌, List, ◌++◌, Option, none, some, ◌⊎◌, ◌≡◌, refl, sym, ap, subst, ◌∙◌,
  Bytes, if◌then◌else◌, ltb,
}
use statico.Http.{Version, http_11, Headers, Request, Response}
use statico.Pretty.{Collected, collect_request}
use statico.Delayed.{DelayedBody}
use statico.Config.{ServerConfig}
use statico.Static.{
  ServiceOptions, ServiceEvent, SmolAnswer, panicked, answered, response_headers, delayed_body,
  tokio_service, smol_service, ok, execute_delay, observe_response,
}

abbrev pub Answer : Type 0 → Type 0 → Type 0 → Type 0
Answer D F S = List (ServiceEvent D) × Option (Response × (DelayedBody F S ⊎ F))

abbrev pub collected :
    {D E : Type 0} → ServiceOptions D → Request → E ⊎ (Bytes × Option Headers) → Option Collected
collected s req incoming =
    if s.meter || ltb 0 s.verbose then ok (collect_request req incoming) else none

-- The answer of smol.rs beside that of tokio.rs, by the delay of the body.
abbrev pub AnswersAs :
    {D F S : Type 0}
    → Option D
    → Answer D F S
    → List (ServiceEvent D) × SmolAnswer (Response × (DelayedBody F S ⊎ F))
    → Type 0
AnswersAs none (actions, answer) smol_answer = smol_answer ≡ (actions, answered answer)
AnswersAs (some delay) (actions, answer) (done, end) =
    (end ≡ panicked) × ((observed : List (ServiceEvent _)) × (actions ≡ done ++ observed))

regroup : {A : Type 0} (a b c d : List A) → (a ++ (b ++ c)) ++ d ≡ a ++ (b ++ (c ++ d))
regroup a b c d = append_assoc a (b ++ c) d ∙ ap (λ (xs : List _). a ++ xs) (append_assoc b c d)

module _ {D F S T : Type 0} (canonical_reason : ℕ → Option Bytes) (log10_floor : ℕ → ℕ)
    (bold blue reversed : Bytes → Bytes) (version_debug : Version → Bytes)
    (status_display : ℕ → Bytes) (to_str : Bytes → Option Bytes) (new_full : Bytes → F)
    (sleep : D → S) (append : Bytes → Bytes → Headers → Option Headers) where
  abbrev pub observe : ServiceOptions D → ServerConfig T → Option Response → List (ServiceEvent D)
  observe =
      observe_response canonical_reason log10_floor bold blue reversed version_debug status_display
        to_str

  abbrev pub built : ServerConfig T → Version → Option Response
  built config version = elim (response_headers append config) [
    | none ↦ none
    | some headers ↦ some (record { version = version; status = config.status; headers = headers })
  ]

  -- The answer by the version of the response, as both services build it.
  abbrev pub answer_of :
      ServerConfig T → Option D → Version → Option (Response × (DelayedBody F S ⊎ F))
  answer_of config body_delay version = elim (built config version) [
    | none ↦ none
    | some r ↦ some (r, delayed_body sleep new_full body_delay config.body)
  ]

  module _ {E : Type 0} where
    abbrev pub tokio :
        ServiceOptions D → ServerConfig T → Request → E ⊎ (Bytes × Option Headers) → Answer D F S
    tokio s config req incoming =
        tokio_service canonical_reason log10_floor bold blue reversed version_debug status_display
          to_str new_full sleep append s config req incoming

    abbrev pub smol :
        ServiceOptions D
        → ServerConfig T
        → Request
        → E ⊎ (Bytes × Option Headers)
        → List (ServiceEvent D) × SmolAnswer (Response × (DelayedBody F S ⊎ F))
    smol s config req incoming =
        smol_service canonical_reason log10_floor bold blue reversed version_debug status_display
          to_str new_full sleep append s config req incoming

    answer-tokio_service :
        (s : ServiceOptions D) (config : ServerConfig T) (req : Request)
        (incoming : E ⊎ (Bytes × Option Headers))
        → (tokio s config req incoming).1 ≡ answer_of config s.body_delay req.version
    unfolding tokio_service
    answer-tokio_service s config req incoming = refl

    service_lem :
        (verbose : ℕ) (delay body_delay : Option D) (meter : Bool) (config : ServerConfig T)
        (method uri : Bytes) (headers : Headers) (incoming : E ⊎ (Bytes × Option Headers))
        → let s : ServiceOptions D = record {
          verbose = verbose;
          delay = delay;
          body_delay = body_delay;
          meter = meter;
        } in
          let req : Request = record {
            method = method;
            uri = uri;
            version = http_11;
            headers = headers;
          } in
          AnswersAs body_delay (tokio s config req incoming) (smol s config req incoming)
    unfolding tokio_service smol_service delayed_body
    service_lem verbose delay none meter config method uri headers incoming =
        let s : ServiceOptions D = record {
          verbose = verbose;
          delay = delay;
          body_delay = none;
          meter = meter;
        } in
        ap
          (λ (actions : List (ServiceEvent D)).
            (actions, SmolAnswer.answered (answer_of config none http_11)))
          (regroup _ _ (execute_delay delay) (observe s config (built config http_11)))
    service_lem verbose delay (some d) meter config method uri headers incoming =
        let s : ServiceOptions D = record {
          verbose = verbose;
          delay = delay;
          body_delay = some d;
          meter = meter;
        } in
        (refl, (observe s config (built config http_11), sym (regroup _ _ (execute_delay delay) _)))

    -- For every request of HTTP/1.1, whatever reading its body gave: without a delay of the body, the
    -- actions and the answer of the service of smol.rs are those of the service of tokio.rs; with one, it
    -- panics and has done the first of those actions only.
    pub tokio_service-smol_service :
        (s : ServiceOptions D) (config : ServerConfig T) (req : Request)
        (incoming : E ⊎ (Bytes × Option Headers))
        → req.version ≡ http_11
        → AnswersAs s.body_delay (tokio s config req incoming) (smol s config req incoming)
    tokio_service-smol_service s config req incoming h =
        subst
          (λ (v : Version).
            let req_v : Request = record {
              method = req.method;
              uri = req.uri;
              version = v;
              headers = req.headers;
            } in
            AnswersAs s.body_delay (tokio s config req_v incoming) (smol s config req_v incoming))
          (sym h)
          (service_lem s.verbose s.delay s.body_delay s.meter config req.method req.uri req.headers
            incoming)

    -- The answer depends on the configuration, on the delay of its body and on the version of the
    -- request, and on nothing else: neither on the meter, the verbosity and the delay before it, nor
    -- on the rest of the request, nor on what reading the body of the request gave.
    pub tokio_service_unobserved :
        (s t : ServiceOptions D) (config : ServerConfig T) (req other : Request)
        → (incoming late : E ⊎ (Bytes × Option Headers)) → s.body_delay ≡ t.body_delay
        → req.version ≡ other.version
        → (tokio s config req incoming).1 ≡ (tokio t config other late).1
    tokio_service_unobserved s t config req other incoming late d v =
        answer-tokio_service s config req incoming
        ∙ (rw (d, v) refl ∙ sym (answer-tokio_service t config other late))
