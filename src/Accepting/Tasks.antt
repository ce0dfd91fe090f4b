-- ===== src/Accepting/Tasks.antt =====
-- What the task of a connection starts, and on which stream.
use statico.Prelude.{Bool, true, false, List, [], ◌∷◌, Option, none, some, ◌⊎◌, inl, inr, ◌≡◌}
use statico.Accepting.{
  TaskEnd, handshake_failed, served_as, TaskStep, handshaken, started_http2, started_http1,
}

module _ {S T K : Type 0} (handshake : K → S → Option T)
    (http2_connection http1_connection : S ⊎ T → Bool) where
  -- The protocol that the flag selects, on a stream.
  abbrev pub selected : Bool → S ⊎ T → TaskStep K S T
  selected true io = started_http2 io
  selected false io = started_http1 io

  -- The end of a task that serves on a stream by the selected protocol alone.
  abbrev pub end_of : Bool → S ⊎ T → TaskEnd
  end_of true io = served_as true (http2_connection io)
  end_of false io = served_as false (http1_connection io)

  -- Without TLS, the task only starts the selected protocol on the plain stream. With TLS, it does a
  -- handshake on that stream, and starts the selected protocol on what the handshake gives, if it succeeds,
  -- and nothing otherwise.
  abbrev pub Starts : Option K → Bool → S → List (TaskStep K S T) × TaskEnd → Type 0
  Starts none use_http2 tcp_stream task =
      task ≡ (selected use_http2 (inl tcp_stream) ∷ [], end_of use_http2 (inl tcp_stream))
  Starts (some server_config) use_http2 tcp_stream task =
      ((handshake server_config tcp_stream ≡ none)
        × (task ≡ (handshaken server_config tcp_stream ∷ [], handshake_failed)))
      ⊎ ((tls_stream : T) × (handshake server_config tcp_stream ≡ some tls_stream)
          × (task ≡ (
            handshaken server_config tcp_stream ∷ (selected use_http2 (inr tls_stream) ∷ []),
            end_of use_http2 (inr tls_stream),
          )))
