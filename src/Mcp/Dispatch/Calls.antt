-- ===== src/Mcp/Dispatch/Calls.antt =====
-- `handle_tools_call` of src/mcp.rs on any parameters, and on well-formed ones.
use statico.Prelude.{
  [], ◌++◌, ◌≡◌, refl, Bytes, Option, codes, Bool, true, false, equal, inl, inr, Bool-cases,
}
use statico.Mcp.Scan.{found, ◌>>=◌, ask}
use statico.Mcp.Scan.Holds.{Holds, Holds-bind, Holds-ask}
use statico.Mcp.Json.{Json, IsContent, IsJson, print}
use statico.Mcp.Objects.{find_raw_value, find_call_target, string_inner}
use statico.Mcp.Objects.Safe.{IsRaw, IsCall, find_raw_value-IsRaw, find_call_target-IsCall}
use statico.Mcp.Dispatch.{frame, run_tool, handle_tools_call, build_text_result}
use statico.Mcp.Dispatch.Replies.{
  success, tool_result, flag, success-IsJson, tool_result-IsJson, is_plain-IsContent,
  IsContent-append, build_text_result-print, build_answer-print, build_unknown_tool-print,
}

-- The bytes are a tool result for `id` with a text that holds no unescaped quotation mark, in a frame.
pub record IsReply (id : Json) (sse : Bool) (bytes : Bytes) : Type 0 where
  pub text : Bytes
  pub is_error : Bool
  pub valid : IsJson (success id (tool_result text (flag is_error)))
  pub written :
      bytes ≡ (frame sse).0 ++ print (success id (tool_result text (flag is_error))) (frame sse).1

module _ (id : Json) (id_valid : IsJson id) (sse : Bool) where
  reply :
      (text : Bytes) (is_error : Bool) (bytes : Bytes)
      → IsContent text
      → bytes ≡ (frame sse).0 ++ print (success id (tool_result text (flag is_error))) (frame sse).1
      → IsReply id sse bytes
  reply text is_error bytes h e = record {
    text = text;
    is_error = is_error;
    valid =
        success-IsJson id (tool_result text (flag is_error)) id_valid
          (tool_result-IsJson text is_error h);
    written = e;
  }

  -- `echo`, from the test of its arguments on.
  echo-IsReply :
      (arguments_raw : Option Bytes)
      → Holds (IsReply id sse) (do
        arguments ← ask arguments_raw
        text_raw ← find_raw_value arguments (codes "text")
        text_inner ← ask (string_inner text_raw)
        found (build_text_result (frame sse).0 (print id []) text_inner (frame sse).1))
  echo-IsReply arguments_raw = Holds-ask (IsReply id sse) arguments_raw _ (λ arguments _.
      Holds-bind IsRaw (IsReply id sse) (find_raw_value arguments (codes "text")) _
        (find_raw_value-IsRaw arguments (codes "text"))
        (λ raw _ safe. Holds-ask (IsReply id sse) (string_inner raw) _ (λ t e.
          reply t false _ (safe t e) (build_text_result-print (frame sse).0 id t (frame sse).1))))

  -- Whatever the parameters hold, `handle_tools_call` ends, and what it returns for an id of the
  -- scanner's syntax is the result of a tool in the frame of an SSE event, or in none: an object with
  -- that id and with a text in which every quotation mark is behind a backslash and every backslash is
  -- followed by a byte, so that no parameter ends the text or adds a member. Nothing is said of
  -- control characters and of the letter behind a backslash.
  pub handle_tools_call-IsReply :
      (params_raw : Option Bytes)
      → Holds (IsReply id sse) (handle_tools_call (print id []) params_raw sse)
  unfolding handle_tools_call run_tool
  handle_tools_call-IsReply params_raw = Holds-ask (IsReply id sse) params_raw _ (λ params _.
      Holds-bind IsCall (IsReply id sse) (find_call_target params) _
        (find_call_target-IsCall params)
        (λ call _ safe. Holds-ask (IsReply id sse) (string_inner call.0) _ (λ name e.
          elim (Bool-cases (equal name (codes "answer"))) [
            | inl a ↦ rw a (
                reply (codes "42") false _ (is_plain-IsContent (codes "42") refl)
                  (build_answer-print (frame sse).0 id (frame sse).1))
            | inr n ↦ rw n (elim (Bool-cases (equal name (codes "echo"))) [
              | inl a ↦ rw a (echo-IsReply call.1)
              | inr m ↦ rw m (
                  reply (codes "unknown tool " ++ name) true _
                    (IsContent-append (is_plain-IsContent (codes "unknown tool ") refl)
                      (safe.0 name e))
                    (build_unknown_tool-print (frame sse).0 id name (frame sse).1))
            ])
          ])))
