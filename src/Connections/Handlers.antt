-- ===== src/Connections/Handlers.antt =====
-- The four runtimes' connection handlers around the loop.
use statico.Prelude.{
  ℕ, ◌%◌, ◌^◌, ◌≤◌, ◌++◌, false, true, Bool, List, [], ◌∷◌, map, concat, All, Option, some, ◌≡◌,
  Bytes, length,
}
use statico.Http.{Headers}
use statico.Config.{ServerConfig}
use statico.Counters.{finds_counters}
use statico.Connections.{
  Connection, closed, Settings, build_response, handle_connection_uring, handle_connection_monoio,
  handle_connection_glommio, handle_connection_compio,
}
use statico.Connections.Splits.{exchanges}
use statico.Connections.Writes.{serve-requests}
use statico.Connections.Requests.{requests}

module _ {T : Type 0} (decode : Bytes → Option ℕ) (encode : ℕ → Headers → Bytes → Option Bytes)
    (settings : Settings) (config : ServerConfig T) (write_succeeds : ℕ → Bool)
    (decode-bounds : (s : Bytes) (n : ℕ) → decode s ≡ some n → (1 ≤ n) × (n ≤ length s))
    (decode-stable : (s t : Bytes) (n : ℕ) → decode s ≡ some n → decode (s ++ t) ≡ some n)
    (writes-succeed : (k : ℕ) → write_succeeds k ≡ true) (has_counters : ℕ → Bool) where
  -- With the meter off, or for a port that has counters: for a parser that finds requests of at least one byte and within its input, and whose answer more
  -- bytes do not change, and a response that can be built: when every write succeeds, without HTTP/2,
  -- each of the four handlers closes at the end of a stream, whatever the non-empty pieces in which it
  -- is read, having served exactly the requests that the whole stream holds one behind the other,
  -- counted modulo 2^64, each with its own events (recording, delay, the response written) in order.
  pub handle_connection-requests :
      (port : ℕ) (response : Bytes) (chunks : List Bytes)
      → finds_counters settings.meter has_counters port ≡ true
      → build_response encode config ≡ some response
      → All (λ b. 1 ≤ length b) chunks
      → (d : Connection) × (handle_connection_uring decode encode settings config write_succeeds
            has_counters
            (map some chunks ++ (some [] ∷ []))
            port
            false
          ≡ closed d)
        × (handle_connection_monoio decode encode settings config write_succeeds has_counters
              (map some chunks ++ (some [] ∷ []))
              port
              false
            ≡ closed d)
        × (handle_connection_glommio decode encode settings config write_succeeds has_counters
              (map some chunks ++ (some [] ∷ []))
              port
              false
            ≡ closed d)
        × (handle_connection_compio decode encode settings config write_succeeds has_counters
              (map some chunks ++ (some [] ∷ []))
              port
            ≡ closed d)
        × (d.requests_served ≡ length (requests decode (concat chunks)) % 2 ^ 64)
        × (d.events ≡ exchanges decode settings response (requests decode (concat chunks)))
  unfolding handle_connection_uring handle_connection_monoio handle_connection_glommio
      handle_connection_compio
  handle_connection-requests port response chunks counted built all =
      let served =
        serve-requests decode settings response write_succeeds decode-bounds decode-stable
          writes-succeed chunks all in
      rw (built, counted) (served.0, served.1, served.1, served.1, served.1, served.2, served.3)
