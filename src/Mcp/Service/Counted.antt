-- ===== src/Mcp/Service/Counted.antt =====
-- What the service of the MCP mock records, by the sizes that it computes.
use statico.Prelude.{
  ℕ, ◌+◌, ◌%◌, ◌^◌, ◌<◌, Bool, true, false, not, List, [], ◌∷◌, Option, none, some, ◌≡◌, refl, sym,
  ap, subst, ◌∙◌, Bytes, length, equal, codes, arith, ltb, if◌then◌else◌, Bool-cases, Option-cases,
  ◌&&◌, inl, inr, All,
}
use statico.Http.{Response, request_head_size, response_head_size, chunked_body_wire_size}
use statico.Mcp.Fragments.{err_parse}
use statico.Mcp.Dispatch.{DispatchOutput, empty, json, sse_tools_call, dispatch_rpc}
use statico.Mcp.Dispatch.Streams.{dispatch_rpc_not_streamed, dispatch_rpc_streamed}
use statico.Mcp.Sse.{
  full, sse, concat_sse_for_log, write_plain, sse_notif_wire_bytes, sum_wire_bytes,
}
use statico.Mcp.Sse.Wire.{IsFilled, length-concat_sse_for_log}
use statico.Mcp.Service.{
  Action, request_recorded, response_recorded, McpRequest, McpResponse, Service, all_of, is_chunked,
  json_response, empty_response, reject, answer, is_some, serve_post, handle,
}
use statico.Mcp.Service.Actions.{
  recorded, recorded_response, recorded_request, recorded_unread, recorded_rejected,
}

-- The service was set up with the size of its own notifications, which are not empty.
pub record IsPrepared (s : Service) : Type 0 where
  pub wire : s.sse_notif_wire_bytes ≡ sse_notif_wire_bytes s.use_http2 s.sse_notifications
  pub filled : All IsFilled (all_of s.sse_notifications)
  pub fits : length (write_plain (all_of s.sse_notifications)) < 2 ^ 63

sse_notif_wire_bytes-all_of :
    (http2 : Bool) (o : Option (List Bytes))
    → sse_notif_wire_bytes http2 o ≡ sse_notif_wire_bytes http2 (some (all_of o))
unfolding sse_notif_wire_bytes sum_wire_bytes
sse_notif_wire_bytes-all_of http2 none = refl
sse_notif_wire_bytes-all_of http2 (some ns) = refl

sse_size :
    (http2 : Bool) (ns : List Bytes) (f : Bytes)
    → All IsFilled ns
    → IsFilled f
    → length (write_plain ns) < 2 ^ 63
    → length f < 2 ^ 63
    → (sse_notif_wire_bytes http2 (some ns)
          + (if http2 then length f else chunked_body_wire_size (length f)))
        % 2 ^ 64
      ≡ length (concat_sse_for_log ns f (not http2)) % 2 ^ 64
sse_size true ns f all g h k = (length-concat_sse_for_log ns f all g h k).1
sse_size false ns f all g h k = (length-concat_sse_for_log ns f all g h k).0

streamed-IsFilled :
    (sse_enabled : Bool) (body f : Bytes)
    → dispatch_rpc body sse_enabled ≡ sse_tools_call f
    → IsFilled f
streamed-IsFilled true body f e = dispatch_rpc_streamed body f e
streamed-IsFilled false body f e = absurd (dispatch_rpc_not_streamed body f e)

small_streamed :
    (sse_enabled : Bool) (body f : Bytes)
    → dispatch_rpc body sse_enabled ≡ sse_tools_call f
    → (dispatch_rpc body true ≡ sse_tools_call f → length f < 2 ^ 63)
    → length f < 2 ^ 63
small_streamed true body f e h = h e
small_streamed false body f e h = absurd (dispatch_rpc_not_streamed body f e)

-- The size of a request as the service counts it.
abbrev pub counted_size : (Bytes → Option Bytes) → McpRequest → Bool → ℕ
counted_size to_str req reads_body = elim req.body [
  | none ↦ request_head_size req.head
  | some body ↦
      if reads_body
      then (request_head_size req.head
          + (if is_chunked to_str req.head.headers
              then chunked_body_wire_size (length body)
              else length body))
        % 2 ^ 64
      else request_head_size req.head
]

counted_size_head :
    (to_str : Bytes → Option Bytes) (req : McpRequest)
    → counted_size to_str req false ≡ request_head_size req.head
counted_size_head to_str req = elim (Option-cases req.body) [
  | inl e ↦ rw e refl
  | inr (b, e) ↦ rw e refl
]

module _ {F : Type 0} (new_full : Bytes → F) (canonical_reason : ℕ → Option Bytes)
    (log10_floor : ℕ → ℕ) where
  -- A response and its head's size, with the bytes of its body: plain, or with every event of a
  -- stream as one chunk and the last chunk.
  pub data IsSent (use_http2 : Bool) : McpResponse F → ℕ → Bytes → Type 0 where
    sent_full :
        {resp : McpResponse F} {b : Bytes}
        → resp.body ≡ full (new_full b)
        → IsSent use_http2 resp
            (response_head_size canonical_reason log10_floor resp.head (length b))
            b
    sent_sse :
        {resp : McpResponse F} {ns : List Bytes} {last : Bytes}
        → resp.body ≡ sse ns 0 (some last)
        → IsSent use_http2 resp
            (response_head_size canonical_reason log10_floor resp.head 0)
            (concat_sse_for_log ns last (not use_http2))

  head_wraps :
      (head : Response) (body_len : ℕ)
      → response_head_size canonical_reason log10_floor head body_len
        ≡ (response_head_size canonical_reason log10_floor head body_len + 0) % 2 ^ 64
  unfolding response_head_size
  head_wraps head body_len = omega arith

  answer-IsSent :
      (s : Service) (req : McpRequest) (body : Bytes) (out : DispatchOutput)
      → s.counters ≡ true
      → IsPrepared s
      → ((f : Bytes) → out ≡ sse_tools_call f → length f < 2 ^ 63)
      → dispatch_rpc body (is_some s.sse_notifications) ≡ out
      → (head_size : ℕ) × (b : Bytes) × IsSent s.use_http2
          (answer new_full canonical_reason log10_floor s req.head.version out).1
          head_size
          b
        × (recorded (answer new_full canonical_reason log10_floor s req.head.version out).0
            ≡ response_recorded ((head_size + length b) % 2 ^ 64) ∷ [])
  unfolding answer
  answer-IsSent s req body (json status b) c p small e =
      (_, b, sent_full refl, recorded_response s.counters (ltb 0 s.verbose) _ _ c)
  answer-IsSent s req body (empty status) c p small e = (
    _,
    [],
    sent_full refl,
    recorded_response s.counters (ltb 0 s.verbose) _ _ c
        ∙ ap (λ (n : ℕ). response_recorded n ∷ []) (head_wraps _ 0),
  )
  answer-IsSent s req body (sse_tools_call f) c p small e =
      let filled = streamed-IsFilled (is_some s.sse_notifications) body f e in
      let size =
        sse_size s.use_http2 (all_of s.sse_notifications) f p.filled filled p.fits (small f refl) in
      let wire = p.wire ∙ sse_notif_wire_bytes-all_of s.use_http2 s.sse_notifications in
      (
        _,
        concat_sse_for_log (all_of s.sse_notifications) f (not s.use_http2),
        sent_sse refl,
        recorded_response s.counters (ltb 0 s.verbose) _ _ c
            ∙ ap (λ (n : ℕ). response_recorded n ∷ []) (omega (arith, size, wire)),
      )

  -- The actions record a request of the size given and then the response, of the size that was sent.
  abbrev pub IsRecorded : Bool → ℕ → List Action × McpResponse F → Type 0
  IsRecorded use_http2 request_size (actions, resp) =
      (head_size : ℕ) × (b : Bytes) × IsSent use_http2 resp head_size b
      × (recorded actions
          ≡ request_recorded request_size
            ∷ (response_recorded ((head_size + length b) % 2 ^ 64) ∷ []))

  reject-IsRecorded :
      (s : Service) (n status : ℕ)
      → s.counters ≡ true
      → IsRecorded s.use_http2 n (reject new_full canonical_reason log10_floor s n status)
  unfolding reject empty_response
  reject-IsRecorded s n status c = (
    _,
    [],
    sent_full refl,
    recorded_rejected s.counters (ltb 0 s.verbose) n _ c
        ∙ ap (λ (m : ℕ). request_recorded n ∷ (response_recorded m ∷ [])) (head_wraps _ 0),
  )

  serve_post-IsRecorded :
      (s : Service) (req : McpRequest) (to_str : Bytes → Option Bytes) (body : Option Bytes)
      → s.counters ≡ true
      → IsPrepared s
      → ((b f : Bytes) → body ≡ some b → dispatch_rpc b true ≡ sse_tools_call f → length f < 2 ^ 63)
      → IsRecorded s.use_http2
          (counted_size to_str (record { head = req.head; path = req.path; body = body }) true)
          (serve_post new_full canonical_reason log10_floor s req.head
            (request_head_size req.head)
            (is_chunked to_str req.head.headers)
            body)
  unfolding serve_post json_response
  serve_post-IsRecorded s req to_str none c p small =
      (_, err_parse, sent_full refl, recorded_unread s.counters (request_head_size req.head) _ c)
  serve_post-IsRecorded s req to_str (some b) c p small =
      let size =
        counted_size to_str (record { head = req.head; path = req.path; body = some b }) true in
      let out = dispatch_rpc b (is_some s.sse_notifications) in
      let answered =
        answer-IsSent s req b out c p
          (λ f e. small_streamed (is_some s.sse_notifications) b f e (small b f refl)) refl in
      (
        answered.0,
        answered.1,
        answered.2,
        recorded_request s.counters (ltb 0 s.verbose) size _ c
            ∙ ap (λ (acts : List Action). request_recorded size ∷ acts) answered.3,
      )

  -- The service with the meter on.
  abbrev metered : Service → McpRequest → (Bytes → Option Bytes) → List Action × McpResponse F
  metered s req to_str =
      if not (equal req.path s.endpoint)
      then reject new_full canonical_reason log10_floor s (request_head_size req.head) 404
      else (if not (equal req.head.method (codes "POST"))
          then reject new_full canonical_reason log10_floor s (request_head_size req.head) 405
          else serve_post new_full canonical_reason log10_floor s req.head
              (request_head_size req.head) (is_chunked to_str req.head.headers) req.body)

  handle-metered :
      (s : Service) (req : McpRequest) (to_str : Bytes → Option Bytes)
      → s.meter ≡ true
      → handle new_full canonical_reason log10_floor to_str s req ≡ metered s req to_str
  unfolding handle
  handle-metered s req to_str m =
      ap
        (λ (meter : Bool).
          let head_size = if meter then request_head_size req.head else 0 in
          let chunked = if meter then is_chunked to_str req.head.headers else false in
          if not (equal req.path s.endpoint)
          then reject new_full canonical_reason log10_floor s head_size 404
          else (if not (equal req.head.method (codes "POST"))
              then reject new_full canonical_reason log10_floor s head_size 405
              else serve_post new_full canonical_reason log10_floor s req.head head_size chunked
                  req.body))
        m

  pub handle-counted :
      (s : Service) (req : McpRequest) (to_str : Bytes → Option Bytes)
      → s.counters ≡ true
      → s.meter ≡ true
      → IsPrepared s
      → ((b f : Bytes)
          → req.body ≡ some b
          → dispatch_rpc b true ≡ sse_tools_call f
          → length f < 2 ^ 63)
      → IsRecorded s.use_http2
          (counted_size to_str req
            (equal req.path s.endpoint && equal req.head.method (codes "POST")))
          (handle new_full canonical_reason log10_floor to_str s req)
  handle-counted s req to_str c m p small =
      subst
        (IsRecorded s.use_http2 (
          counted_size to_str req
            (equal req.path s.endpoint && equal req.head.method (codes "POST"))))
        (sym (handle-metered s req to_str m))
        (elim (Bool-cases (equal req.path s.endpoint)) [
          | inr n ↦ rw n (
              rw (counted_size_head to_str req)
                (reject-IsRecorded s (request_head_size req.head) 404 c))
          | inl y ↦ rw y (elim (Bool-cases (equal req.head.method (codes "POST"))) [
            | inr n ↦ rw n (
                rw (counted_size_head to_str req)
                  (reject-IsRecorded s (request_head_size req.head) 405 c))
            | inl z ↦ rw z (serve_post-IsRecorded s req to_str req.body c p small)
          ])
        ])
