-- ===== src/Mcp/Service/Actions.antt =====
-- What the MCP mock records, among all that its service does.
use statico.Prelude.{ℕ, Bool, true, false, List, [], ◌∷◌, ◌++◌, ◌≡◌, refl, Bytes, arith}
use statico.Mcp.Service.{
  Action, request_recorded, response_recorded, request_head_logged, request_printed,
  response_logged, when,
}

-- What is recorded, among all that is done.
abbrev pub recorded : List Action → List Action
recorded [] = []
recorded (request_recorded n ∷ actions) = request_recorded n ∷ recorded actions
recorded (response_recorded n ∷ actions) = response_recorded n ∷ recorded actions
recorded (_ ∷ actions) = recorded actions

pub recorded_response :
    (counters v : Bool) (n : ℕ) (b : Bytes)
    → counters ≡ true
    → recorded (when counters (response_recorded n) ++ when v (response_logged b))
      ≡ response_recorded n ∷ []
recorded_response true true n b c = refl
recorded_response true false n b c = refl
recorded_response false v n b c = absurd (ground arith)

pub recorded_request :
    (counters v : Bool) (n : ℕ) (actions : List Action)
    → counters ≡ true
    → recorded (when counters (request_recorded n) ++ (when v request_printed ++ actions))
      ≡ request_recorded n ∷ recorded actions
recorded_request true true n actions c = refl
recorded_request true false n actions c = refl
recorded_request false v n actions c = absurd (ground arith)

pub recorded_unread :
    (counters : Bool) (n m : ℕ)
    → counters ≡ true
    → recorded (when counters (request_recorded n) ++ when counters (response_recorded m))
      ≡ request_recorded n ∷ (response_recorded m ∷ [])
recorded_unread true n m c = refl
recorded_unread false n m c = absurd (ground arith)

pub recorded_rejected :
    (counters v : Bool) (n m : ℕ)
    → counters ≡ true
    → recorded (
        when v request_head_logged
        ++ (when v (response_logged [])
            ++ (when counters (request_recorded n) ++ when counters (response_recorded m))))
      ≡ request_recorded n ∷ (response_recorded m ∷ [])
recorded_rejected true true n m c = refl
recorded_rejected true false n m c = refl
recorded_rejected false v n m c = absurd (ground arith)
