-- ===== src/Connections/Writes.antt =====
-- The connection loop when every write succeeds.
use statico.Prelude.{
  ℕ, ◌+◌, ◌%◌, ◌^◌, ◌≤◌, Bool, true, List, [], ◌∷◌, ◌++◌, if◌then◌else◌, map, concat, All, subst,
  Option, none, some, ◌≡◌, refl, Bytes, length,
}
use statico.Connections.{Connection, closed, failed, waiting, Settings, start, serve}
use statico.Connections.Buffers.{pending}
use statico.Connections.Requests.{requests}
use statico.Connections.Splits.{Answered, answered, exchanges, serve-answered, serve-pending}

module _ (decode : Bytes → Option ℕ) (settings : Settings) (response : Bytes)
    (write_succeeds : ℕ → Bool)
    (decode-bounds : (s : Bytes) (n : ℕ) → decode s ≡ some n → (1 ≤ n) × (n ≤ length s))
    (decode-stable : (s t : Bytes) (n : ℕ) → decode s ≡ some n → decode (s ++ t) ≡ some n)
    (writes-succeed : (k : ℕ) → write_succeeds k ≡ true) where
  -- Without failed writes, every request has its exchange.
  answered-exchanges :
      (k : ℕ) (lens : List ℕ)
      → answered decode settings response write_succeeds k lens ≡ record {
        events = exchanges decode settings response lens;
        begun = length lens;
        alive = true;
      }
  answered-exchanges k [] = refl
  answered-exchanges k (n ∷ lens) =
      let rest = answered-exchanges ((k + 1) % 2 ^ 64) lens in
      rw (answered, writes-succeed k, rest) refl

  -- Every request of the stream is served when all writes succeed, and the loop closes at its end.
  pub serve-requests :
      (chunks : List Bytes)
      → All (λ b. 1 ≤ length b) chunks
      → (d : Connection) × (serve decode settings response write_succeeds
            (map some chunks ++ (some [] ∷ []))
            start
          ≡ closed d)
        × (d.requests_served ≡ length (requests decode (concat chunks)) % 2 ^ 64)
        × (d.events ≡ exchanges decode settings response (requests decode (concat chunks)))
  serve-requests chunks all =
      subst
        (λ (a : Answered).
          (d : Connection) × (serve decode settings response write_succeeds
              (map some chunks ++ (some [] ∷ [])) start
            ≡ (if a.alive then closed d else failed d))
          × (d.requests_served ≡ a.begun % 2 ^ 64)
          × (d.events ≡ a.events))
        (answered-exchanges 0 (requests decode (concat chunks)))
        (serve-answered decode settings response write_succeeds decode-bounds decode-stable chunks
          all)

  -- For a parser that finds requests of at least one byte and within its input, and whose answer
  -- more bytes do not change: whatever the non-empty pieces that have been read so far, when every
  -- write succeeds, the loop waits for the next read and keeps no complete request unanswered: all
  -- the requests that the pieces hold one behind the other have been served, counted modulo 2^64,
  -- each with its own events, the response written among them, in order.
  pub serve-waits :
      (chunks : List Bytes)
      → All (λ b. 1 ≤ length b) chunks
      → (d : Connection) × (serve decode settings response write_succeeds (map some chunks) start
          ≡ waiting d)
        × (decode (pending d) ≡ none)
        × (d.requests_served ≡ length (requests decode (concat chunks)) % 2 ^ 64)
        × (d.events ≡ exchanges decode settings response (requests decode (concat chunks)))
  serve-waits chunks all =
      subst
        (λ (a : Answered).
          (d : Connection) × (serve decode settings response write_succeeds (map some chunks) start
            ≡ (if a.alive then waiting d else failed d))
          × ((if a.alive then decode (pending d) else none) ≡ none)
          × (d.requests_served ≡ a.begun % 2 ^ 64)
          × (d.events ≡ a.events))
        (answered-exchanges 0 (requests decode (concat chunks)))
        (serve-pending decode settings response write_succeeds decode-bounds decode-stable chunks
          all)
