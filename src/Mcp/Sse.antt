-- ===== src/Mcp/Sse.antt =====
-- src/mcp.rs: the bodies that the MCP mock sends (McpBody), the notifications in front of a streamed
-- answer, and their sizes on the wire. The body type Full (crate http_body_util) is a parameter.
pub mod Frames
pub mod Wire
use statico.Prelude.{
  ℕ, zero, suc, ◌+◌, ◌-◌, ◌%◌, ◌^◌, Bool, true, false, List, [], ◌∷◌, ◌++◌, Option, none, some,
  Bytes, length, get_elem?, codes, decimal, hex, ltb, if◌then◌else◌,
}
use statico.Http.{chunked_body_wire_size}

-- What polling a body gives: nothing yet, a frame, or the end.
pub data Poll : Type 0 where
  pending : Poll
  frame : Bytes → Poll
  ended : Poll

pub data McpBody (F : Type 0) : Type 0 where
  full : F → McpBody F
  sse : List Bytes → ℕ → Option Bytes → McpBody F

module _ {F : Type 0} (poll_full : F → Poll × F) (full_is_end_stream : F → Bool) where
  unfoldable pub poll_final : List Bytes → ℕ → Option Bytes → Poll × McpBody F
  poll_final notifications idx none = (ended, sse notifications idx none)
  poll_final notifications idx (some last) = (frame last, sse notifications idx none)

  unfoldable pub poll_frame : McpBody F → Poll × McpBody F
  poll_frame (full f) = ((poll_full f).0, full (poll_full f).1)
  poll_frame (sse notifications idx final_event) = elim (get_elem? notifications idx) [
    | some chunk ↦ (frame chunk, sse notifications (idx + 1) final_event)
    | none ↦ poll_final notifications idx final_event
  ]

  unfoldable pub is_end_stream : McpBody F → Bool
  is_end_stream (full f) = full_is_end_stream f
  is_end_stream (sse notifications idx none) = true
  is_end_stream (sse notifications idx (some last)) = false

-- The `i`th of `count` notifications.
unfoldable pub notification : ℕ → ℕ → Bytes
notification count i =
    codes
      "event: message\ndata: {\"jsonrpc\":\"2.0\",\"method\":\"notifications/message\",\"params\":{\"level\":\"info\",\"data\":\"step "
    ++ (decimal i ++ (codes "/" ++ (decimal count ++ codes "\"}}\n\n")))

-- `left` notifications from the `i`th on.
unfoldable pub notifications_from : ℕ → ℕ → ℕ → List Bytes
notifications_from count zero i = []
notifications_from count (suc left) i = notification count i ∷ notifications_from count left (i + 1)

unfoldable pub build_sse_notifications : ℕ → List Bytes
build_sse_notifications count = notifications_from count count 1

abbrev pub crlf_bytes : Bytes
crlf_bytes = 13 ∷ 10 ∷ []

unfoldable pub write_chunks : List Bytes → Bytes
write_chunks [] = []
write_chunks (n ∷ notifications) =
    hex (length n) ++ (crlf_bytes ++ (n ++ (crlf_bytes ++ write_chunks notifications)))

unfoldable pub write_plain : List Bytes → Bytes
write_plain [] = []
write_plain (n ∷ notifications) = n ++ write_plain notifications

unfoldable pub concat_sse_for_log : List Bytes → Bytes → Bool → Bytes
concat_sse_for_log notifications final_event chunked =
    if chunked
    then write_chunks notifications
      ++ (hex (length final_event) ++ (crlf_bytes ++ (final_event ++ codes "\r\n0\r\n\r\n")))
    else write_plain notifications ++ final_event

unfoldable pub sum_wire_bytes : Bool → List Bytes → ℕ
sum_wire_bytes http2 [] = 0
sum_wire_bytes http2 (b ∷ notifs) =
    ((if http2 then length b else chunked_body_wire_size (length b) - 5)
      + sum_wire_bytes http2 notifs)
    % 2 ^ 64

unfoldable pub sse_notif_wire_bytes : Bool → Option (List Bytes) → ℕ
sse_notif_wire_bytes http2 none = 0
sse_notif_wire_bytes http2 (some notifs) = sum_wire_bytes http2 notifs
