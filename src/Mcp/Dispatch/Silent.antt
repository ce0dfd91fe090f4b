-- ===== src/Mcp/Dispatch/Silent.antt =====
-- Which messages `dispatch_rpc` of src/mcp.rs gives no answer.
use statico.Prelude.{
  ℕ, [], ◌∷◌, ◌++◌, ◌≡◌, ◌⊎◌, inl, inr, refl, Bytes, Option, none, some, codes, Bool, true, false,
  equal, eq_of_equal, starts_with, length, length-append, ltb, ap, ◌∙◌, Bool-cases, Option-cases,
  arith, ◌↔◌, ◌≢◌,
}
use statico.Mcp.Objects.{Rpc}
use statico.Mcp.Dispatch.{
  unwrap_or, empty, has_id, is_notifications, dispatch_request, dispatch_message,
}

-- The message asks for no answer: it has no id, or the id null, or a method below `notifications/`.
abbrev pub IsSilent : Rpc → Type 0
IsSilent rpc =
    (rpc.id_raw ≡ none)
    ⊎ ((rpc.id_raw ≡ some (codes "null"))
        ⊎ ((c : ℕ) × ((rest : Bytes) × (rpc.method ≡ some (codes "notifications/" ++ (c ∷ rest))))))

request_not_empty :
    (method id : Bytes) (params_raw : Option Bytes) (sse : Bool) (st : ℕ)
    → dispatch_request method id params_raw sse ≢ empty st
unfolding dispatch_request
request_not_empty method id params_raw sse st h = ground arith

no_id :
    (id_raw : Option Bytes)
    → has_id id_raw ≡ false
    → (id_raw ≡ none) ⊎ (id_raw ≡ some (codes "null"))
unfolding has_id
no_id none h = inl refl
no_id (some id) h = elim (Bool-cases (equal id (codes "null"))) [
  | inl y ↦ inr (ap some (eq_of_equal id (codes "null") y))
  | inr n ↦ absurd (ground (arith, h, n))
]

starts_with-rest : (p s : Bytes) → starts_with p s ≡ true → (rest : Bytes) × (s ≡ p ++ rest)
unfolding starts_with
starts_with-rest [] s h = (s, refl)
starts_with-rest (c ∷ p) [] h = absurd (ground (arith, h))
starts_with-rest (c ∷ p) (d ∷ s) h =
    let rest = starts_with-rest p s (ground (arith, h)) in
    let same : d ≡ c = ground (arith, h) in
    (rest.0, ap (◌∷◌ d) rest.1 ∙ ap (λ (x : ℕ). x ∷ (p ++ rest.0)) same)

notification_rest :
    (m : Bytes)
    → is_notifications m ≡ true
    → (c : ℕ) × ((rest : Bytes) × (m ≡ codes "notifications/" ++ (c ∷ rest)))
unfolding is_notifications
notification_rest m h =
    let long : ltb 14 (length m) ≡ true = ground (arith, h) in
    let below = starts_with-rest (codes "notifications/") m (ground (arith, h)) in
    go m below.0 long below.1
  where
    go :
        (s rest : Bytes)
        → ltb 14 (length s) ≡ true
        → s ≡ codes "notifications/" ++ rest
        → (c : ℕ) × ((tail : Bytes) × (s ≡ codes "notifications/" ++ (c ∷ tail)))
    go s [] l e = absurd (ground (arith, l, ap length e))
    go s (c ∷ tail) l e = (c, (tail, e))

is_notifications-rest :
    (c : ℕ) (rest : Bytes) → is_notifications (codes "notifications/" ++ (c ∷ rest)) ≡ true
unfolding is_notifications starts_with
is_notifications-rest c rest = ground (arith, length-append (codes "notifications/") (c ∷ rest))

silent_without_id :
    (rpc : Rpc) (sse : Bool) → has_id rpc.id_raw ≡ false → dispatch_message rpc sse ≡ empty 202
unfolding dispatch_message
silent_without_id rpc sse h = elim (Option-cases rpc.method) [
  | inl e ↦ rw (e, h, dispatch_message) refl
  | inr (m, e) ↦
      rw (e, h, dispatch_message)
        (elim (Bool-cases (is_notifications m)) [ inl y ↦ rw y refl | inr n ↦ rw n refl ])
]

empty_answer_lem : (rpc : Rpc) (sse : Bool) → dispatch_message rpc sse ≡ empty 202 → IsSilent rpc
unfolding dispatch_message
empty_answer_lem rpc sse h = elim (Bool-cases (has_id rpc.id_raw)) [
  | inr n ↦ elim (no_id rpc.id_raw n) [ inl a ↦ inl a | inr b ↦ inr (inl b) ]
  | inl y ↦ elim (Option-cases rpc.method) [
    | inl e ↦ absurd (ground (arith, h, e, y))
    | inr (m, e) ↦ elim (Bool-cases (is_notifications m)) [
      | inl z ↦
          let below = notification_rest m z in
          inr (inr (below.0, (below.1.0, e ∙ ap some below.1.1)))
      | inr n ↦
          let answered =
            request_not_empty m (unwrap_or rpc.id_raw (codes "null")) rpc.params_raw sse 202 in
          absurd (ground (arith, h, e, y, n, answered))
    ]
  ]
]

silent_message_lem : (rpc : Rpc) (sse : Bool) → IsSilent rpc → dispatch_message rpc sse ≡ empty 202
unfolding dispatch_message has_id equal
silent_message_lem rpc sse (inl e) = silent_without_id rpc sse (ap has_id e)
silent_message_lem rpc sse (inr (inl e)) = silent_without_id rpc sse (ap has_id e)
silent_message_lem rpc sse (inr (inr (c, (rest, e)))) =
    rw (e, is_notifications-rest c rest, dispatch_message) refl

-- A scanned message is answered with an empty 202 exactly when it has no id, the id null, or a method
-- that goes on after `notifications/`.
pub dispatch_message-IsSilent :
    (rpc : Rpc) (sse : Bool) → (dispatch_message rpc sse ≡ empty 202) ↔ IsSilent rpc
dispatch_message-IsSilent rpc sse = (empty_answer_lem rpc sse, silent_message_lem rpc sse)
