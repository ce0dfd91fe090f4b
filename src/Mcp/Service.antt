-- ===== src/Mcp/Service.antt =====
-- src/mcp.rs: the request service of `handle_conn`, from a request's head to the response. A request
-- comes with the path of its URI (crate http) and with its body, if that could be read. What the
-- service does besides answering is a list of actions in order. The constructor of the body type Full
-- (crate http_body_util), the reason phrases, the decimal logarithm, and `to_str` on a header's
-- value are parameters.
pub mod Actions
pub mod Counted
pub mod Records
mod Tests
use statico.Prelude.{
  ℕ, zero, suc, ◌+◌, ◌%◌, ◌^◌, Bool, true, false, not, ◌||◌, List, [], ◌∷◌, ◌++◌, Option, none,
  some, Bytes, length, codes, decimal, equal, starts_with, ltb, if◌then◌else◌,
}
use statico.Http.{
  Headers, Request, Response, Version, http_11, request_head_size, response_head_size,
  chunked_body_wire_size,
}
use statico.Mcp.Fragments.{err_parse}
use statico.Mcp.Dispatch.{DispatchOutput, empty, json, sse_tools_call, dispatch_rpc}
use statico.Mcp.Sse.{McpBody, full, sse, concat_sse_for_log}

pub data Action : Type 0 where
  request_recorded response_recorded : ℕ → Action
  request_head_logged request_printed : Action
  response_logged : Bytes → Action

pub record McpRequest : Type 0 where
  pub head : Request
  pub path : Bytes
  pub body : Option Bytes

pub record McpResponse (F : Type 0) : Type 0 where
  pub head : Response
  pub body : McpBody F

pub record Service : Type 0 where
  pub use_http2 : Bool
  pub verbose : ℕ
  pub counters : Bool
  pub endpoint : Bytes
  pub meter : Bool
  pub sse_notifications : Option (List Bytes)
  pub sse_notif_wire_bytes : ℕ

-- `headers.get(name)`: the first value.
unfoldable pub get : Bytes → Headers → Option Bytes
get name [] = none
get name ((key, value) ∷ headers) = if equal key name then some value else get name headers

-- `str::contains`
unfoldable pub contains : Bytes → Bytes → Bool
contains pattern_text [] = starts_with pattern_text []
contains pattern_text (c ∷ s) = starts_with pattern_text (c ∷ s) || contains pattern_text s

-- `unwrap`: a streamed answer is given only when there are notifications.
abbrev pub all_of : Option (List Bytes) → List Bytes
all_of none = []
all_of (some notifications) = notifications

abbrev pub when : Bool → Action → List Action
when b a = if b then a ∷ [] else []

abbrev pub is_some {ℓ} : {A : Type ℓ} → Option A → Bool
is_some none = false
is_some (some a) = true

unfoldable pub is_chunked : (Bytes → Option Bytes) → Headers → Bool
is_chunked to_str headers = elim (get (codes "transfer-encoding") headers) [
  | none ↦ false
  | some value ↦ elim (to_str value) [ none ↦ false | some s ↦ contains (codes "chunked") s ]
]

module _ {F : Type 0} (new_full : Bytes → F) (canonical_reason : ℕ → Option Bytes)
    (log10_floor : ℕ → ℕ) where
  unfoldable pub json_response : ℕ → Bytes → McpResponse F
  json_response status body = record {
    head = record {
      version = http_11;
      status = status;
      headers =
          (codes "content-type", codes "application/json")
          ∷ ((codes "content-length", decimal (length body)) ∷ []);
    };
    body = full (new_full body);
  }

  unfoldable pub empty_response : ℕ → McpResponse F
  empty_response status = record {
    head = record {
      version = http_11;
      status = status;
      headers = (codes "content-length", codes "0") ∷ [];
    };
    body = full (new_full []);
  }

  abbrev pub size_of : McpResponse F → ℕ → ℕ
  size_of resp body_len = response_head_size canonical_reason log10_floor resp.head body_len

  -- The head of a request that is turned away, before its body is read.
  unfoldable pub reject : Service → ℕ → ℕ → List Action × McpResponse F
  reject s head_size status =
      let resp = empty_response status in
      (
        when (ltb 0 s.verbose) request_head_logged
            ++ (when (ltb 0 s.verbose) (response_logged [])
                ++ (when s.counters (request_recorded head_size)
                    ++ when s.counters (response_recorded (size_of resp 0)))),
        resp,
      )

  unfoldable pub answer : Service → Version → DispatchOutput → List Action × McpResponse F
  answer s req_version (json status body) =
      let resp : McpResponse F = record {
        head = record {
          version = req_version;
          status = status;
          headers =
              (codes "content-type", codes "application/json")
              ∷ ((codes "content-length", decimal (length body)) ∷ []);
        };
        body = full (new_full body);
      } in
      (
        when s.counters (response_recorded ((size_of resp (length body) + length body) % 2 ^ 64))
            ++ when (ltb 0 s.verbose) (response_logged body),
        resp,
      )
  answer s req_version (sse_tools_call final_vec) =
      let notifications = all_of s.sse_notifications in
      let chunked : Headers =
        if s.use_http2 then [] else (codes "transfer-encoding", codes "chunked") ∷ [] in
      let resp : McpResponse F = record {
        head = record {
          version = req_version;
          status = 200;
          headers =
              (codes "content-type", codes "text/event-stream")
              ∷ ((codes "cache-control", codes "no-cache") ∷ chunked);
        };
        body = sse notifications 0 (some final_vec);
      } in
      let body_wire =
        (s.sse_notif_wire_bytes
          + (if s.use_http2 then length final_vec else chunked_body_wire_size (length final_vec)))
        % 2 ^ 64 in
      (
        when s.counters (response_recorded ((size_of resp 0 + body_wire) % 2 ^ 64))
            ++ when (ltb 0 s.verbose)
                (response_logged (concat_sse_for_log notifications final_vec (not s.use_http2))),
        resp,
      )
  answer s req_version (empty status) =
      let resp : McpResponse F = record {
        head = record {
          version = req_version;
          status = status;
          headers = (codes "content-length", codes "0") ∷ [];
        };
        body = full (new_full []);
      } in
      (
        when s.counters (response_recorded (size_of resp 0))
            ++ when (ltb 0 s.verbose) (response_logged []),
        resp,
      )

  -- A POST on the endpoint, by what reading its body gave.
  unfoldable pub serve_post :
      Service → Request → ℕ → Bool → Option Bytes → List Action × McpResponse F
  serve_post s head head_size chunked none =
      let resp = json_response 400 err_parse in
      (
        when s.counters (request_recorded head_size)
            ++ when s.counters
                (response_recorded ((size_of resp (length err_parse) + length err_parse) % 2 ^ 64)),
        resp,
      )
  serve_post s head head_size chunked (some collected) =
      let body_size =
        if chunked then chunked_body_wire_size (length collected) else length collected in
      let answered = answer s head.version (dispatch_rpc collected (is_some s.sse_notifications)) in
      (
        when s.counters (request_recorded ((head_size + body_size) % 2 ^ 64))
            ++ (when (ltb 0 s.verbose) request_printed ++ answered.0),
        answered.1,
      )

  unfoldable pub handle :
      (Bytes → Option Bytes) → Service → McpRequest → List Action × McpResponse F
  handle to_str s req =
      let head_size = if s.meter then request_head_size req.head else 0 in
      let chunked = if s.meter then is_chunked to_str req.head.headers else false in
      if not (equal req.path s.endpoint)
      then reject s head_size 404
      else (if not (equal req.head.method (codes "POST"))
          then reject s head_size 405
          else serve_post s req.head head_size chunked req.body)
