-- ===== src/Mcp/Dispatch/Replies.antt =====
-- The JSON values that the builders of src/mcp.rs write, as trees.
use statico.Prelude.{
  [], ◌∷◌, ◌++◌, ◌≡◌, refl, sym, ap, Bytes, codes, Bool, true, false, not, ◌&&◌, ◌==◌, arith,
  if◌then◌else◌,
}
use Prim.Native.String.{String}
use statico.Mcp.Scan.{is_delimiter}
use statico.Mcp.Json.{
  Json, str, token, arr, obj, item, Fields, no_fields, field, fields, IsContent, nil, plain, escape,
  IsJson, IsFields, print,
}
use statico.Mcp.Json.Print.{print-append}
use statico.Mcp.Fragments.{
  prefix, server_name, init_result_prefix, init_result_mid, init_result_mid2, init_result_suffix,
  ping_result, tools_call_answer_result, tools_call_text_prefix, tools_call_text_suffix,
  tools_call_unknown_prefix, tools_call_unknown_suffix, err_invalid_suffix,
  err_invalid_params_suffix, err_method_prefix, err_method_suffix, cargo_pkg_version,
}
use statico.Mcp.Dispatch.{
  build_framed_with_id, build_with_id, build_text_result, build_unknown_tool, build_initialize,
  build_error_with_id,
}

abbrev pub member : String → Json → Fields → Fields
member k v fs = fields [] (codes k) [] [] v [] fs

abbrev pub last_member : String → Json → Fields
last_member k v = field [] (codes k) [] [] v []

-- `{"jsonrpc":"2.0","id":…,"result":…}`, and with an error in place of the result.
abbrev pub success : Json → Json → Json
success id result =
    obj (member "jsonrpc" (str (codes "2.0")) (member "id" id (last_member "result" result)))

abbrev pub failure : Json → String → String → Json
failure id code message = obj (
    member "jsonrpc" (str (codes "2.0")) (
      member "id" id (
        last_member "error" (
          obj (member "code" (token (codes code)) (last_member "message" (str (codes message))))))))

abbrev pub text_entry : Bytes → Fields
text_entry text = member "type" (str (codes "text")) (last_member "text" (str text))

-- The result of a tool: one text, and whether it is an error.
abbrev pub tool_result : Bytes → String → Json
tool_result text is_error = obj (
    member "content" (arr (item [] (obj (text_entry text)) []))
      (last_member "isError" (token (codes is_error))))

abbrev pub initialize_result : Bytes → Json
initialize_result version = obj (
    member "protocolVersion" (str version) (
      member "capabilities"
        (obj (last_member "tools" (obj (last_member "listChanged" (token (codes "false"))))))
        (member "serverInfo"
          (obj (
            member "name" (str (codes "statico-everything"))
              (last_member "version" (str (codes "0.21.1")))))
          (last_member "instructions" (str (codes "Minimal everything mock for benchmarking"))))))

-- The builders write these trees, with the frame around them.
pub build_text_result-print :
    (pre : Bytes) (id : Json) (text suf : Bytes)
    → build_text_result pre (print id []) text suf
      ≡ pre ++ print (success id (tool_result text "false")) suf
unfolding build_text_result prefix tools_call_text_prefix tools_call_text_suffix
build_text_result-print pre id text suf = ap (λ x. pre ++ (prefix ++ x)) (sym (print-append id _))

pub build_answer-print :
    (pre : Bytes) (id : Json) (suf : Bytes)
    → build_framed_with_id pre (print id []) tools_call_answer_result suf
      ≡ pre ++ print (success id (tool_result (codes "42") "false")) suf
unfolding build_framed_with_id prefix tools_call_answer_result
build_answer-print pre id suf = ap (λ x. pre ++ (prefix ++ x)) (sym (print-append id _))

pub build_unknown_tool-print :
    (pre : Bytes) (id : Json) (name suf : Bytes)
    → build_unknown_tool pre (print id []) name suf
      ≡ pre ++ print (success id (tool_result (codes "unknown tool " ++ name) "true")) suf
unfolding build_unknown_tool prefix tools_call_unknown_prefix tools_call_unknown_suffix
build_unknown_tool-print pre id name suf = ap (λ x. pre ++ (prefix ++ x)) (sym (print-append id _))

pub build_initialize-print :
    (id : Json) (version : Bytes)
    → build_initialize (print id []) version ≡ print (success id (initialize_result version)) []
unfolding build_initialize prefix init_result_prefix init_result_mid server_name init_result_mid2
    cargo_pkg_version init_result_suffix
build_initialize-print id version = ap (λ x. prefix ++ x) (sym (print-append id _))

pub build_ping-print :
    (id : Json)
    → build_with_id (print id []) ping_result ≡ print (success id (obj (no_fields []))) []
unfolding build_with_id build_framed_with_id prefix ping_result
build_ping-print id = ap (λ x. prefix ++ x) (sym (print-append id _))

pub build_error-print :
    (id : Json)
    → (build_error_with_id (print id []) err_invalid_suffix
        ≡ print (failure id "-32600" "Invalid Request") [])
      × (build_error_with_id (print id []) err_invalid_params_suffix
          ≡ print (failure id "-32602" "Invalid params") [])
      × (build_error_with_id (print id []) err_method_suffix
          ≡ print (failure id "-32601" "Method not found") [])
unfolding build_error_with_id err_method_prefix err_invalid_suffix err_invalid_params_suffix
    err_method_suffix
build_error-print id = (
  ap (λ x. err_method_prefix ++ x) (sym (print-append id _)),
  ap (λ x. err_method_prefix ++ x) (sym (print-append id _)),
  ap (λ x. err_method_prefix ++ x) (sym (print-append id _)),
)

-- No quote and no backslash.
abbrev pub is_plain : Bytes → Bool
is_plain [] = true
is_plain (c ∷ s) = (not (c == b'"') && not (c == b'\\')) && is_plain s

pub is_plain-IsContent : (s : Bytes) → is_plain s ≡ true → IsContent s
is_plain-IsContent [] h = nil
is_plain-IsContent (c ∷ s) h =
    plain (ground arith) (ground arith) (is_plain-IsContent s (ground arith))

pub IsContent-append : {a b : Bytes} → IsContent a → IsContent b → IsContent (a ++ b)
IsContent-append nil h = h
IsContent-append (plain q b t) h = plain q b (IsContent-append t h)
IsContent-append (escape t) h = escape (IsContent-append t h)

pub IsFields-member :
    (k : String) (v : Json) (fs : Fields)
    → is_plain (codes k) ≡ true
    → IsJson v
    → IsFields fs
    → IsFields (member k v fs)
IsFields-member k v fs h j f = (tt, is_plain-IsContent (codes k) h, tt, tt, j, tt, f)

pub IsFields-last_member :
    (k : String) (v : Json) → is_plain (codes k) ≡ true → IsJson v → IsFields (last_member k v)
IsFields-last_member k v h j = (tt, is_plain-IsContent (codes k) h, tt, tt, j, tt)

-- The envelope of a well-formed id and a well-formed result is well formed.
pub success-IsJson : (id result : Json) → IsJson id → IsJson result → IsJson (success id result)
success-IsJson id result h r =
    IsFields-member "jsonrpc" (str (codes "2.0")) (member "id" id (last_member "result" result))
      refl (is_plain-IsContent (codes "2.0") refl)
      (IsFields-member "id" id (last_member "result" result) refl h
        (IsFields-last_member "result" result refl r))

abbrev pub flag : Bool → String
flag is_error = if is_error then "true" else "false"

flag-IsJson : (is_error : Bool) → IsJson (token (codes (flag is_error)))
unfolding is_delimiter
flag-IsJson true = (((refl, refl), ((refl, refl), ((refl, refl), ((refl, refl), tt)))), λ e. cc)
flag-IsJson false =
    (((refl, refl), ((refl, refl), ((refl, refl), ((refl, refl), ((refl, refl), tt))))), λ e. cc)

pub tool_result-IsJson :
    (text : Bytes) (is_error : Bool) → IsContent text → IsJson (tool_result text (flag is_error))
tool_result-IsJson text is_error h =
    let entry : IsJson (obj (text_entry text)) =
      IsFields-member "type" (str (codes "text")) (last_member "text" (str text)) refl
        (is_plain-IsContent (codes "text") refl) (IsFields-last_member "text" (str text) refl h) in
    IsFields-member "content" (arr (item [] (obj (text_entry text)) []))
      (last_member "isError" (token (codes (flag is_error)))) refl (tt, entry, tt)
      (IsFields-last_member "isError" (token (codes (flag is_error))) refl (flag-IsJson is_error))
