-- ===== src/Mcp/Service/Records.antt =====
-- What the service of the MCP mock records of a request and its response, against the text of an
-- HTTP/1 request.
use statico.Prelude.{ℕ, ◌+◌, ◌%◌, ◌^◌, Bool, Option, none, some, Bytes, length, if◌then◌else◌}
use statico.Http.Heads.{request_head}
use statico.Http.Chunked.{chunked}
use statico.Mcp.Service.{McpRequest, Service, is_chunked}

-- The number of bytes of a request: of an HTTP/1 head, and of its body if that was read, as one chunk
-- if the request is chunked.
abbrev pub received_size : (Bytes → Option Bytes) → McpRequest → Bool → ℕ
received_size to_str req reads_body = elim req.body [
  | none ↦ length (request_head req.head) % 2 ^ 64
  | some body ↦
      if reads_body
      then (length (request_head req.head)
          + length (if is_chunked to_str req.head.headers then chunked body else body))
        % 2 ^ 64
      else length (request_head req.head) % 2 ^ 64
]
