-- ===== src/Connections/Splits.antt =====
-- The connection loop, however the stream is cut into reads and whichever writes succeed.
use statico.Prelude.{
  ℕ, zero, suc, ◌+◌, ◌-◌, ◌%◌, ◌^◌, ◌≤◌, Bool, true, false, List, [], ◌∷◌, ◌++◌, append_assoc,
  append-nil, if◌then◌else◌, Bool-cases, map, concat, All, subst, Option, none, some, ◌≡◌, refl,
  sym, ap, ◌∙◌, Bytes, length, drop, length-drop, drop_append, drop_add, arith, Option-cases, inl,
  inr,
}
use statico.Connections.{
  Event, Connection, Outcome, closed, failed, waiting, Settings, start, reset_or_compact, receive,
  before_write, after_write, accept, parse_requests, serve,
}
use statico.Connections.Buffers.{
  pending, IsKept, reset_or_compact-SameProgress, receive-pending, receive-IsKept, receive-same,
}
use statico.Connections.Requests.{requests, requests-none, requests-some}

-- What an abstract server does for a list of requests: the events in order, the number of requests
-- begun, and whether it is still alive.
pub record Answered : Type 0 where
  pub events : List Event
  pub begun : ℕ
  pub alive : Bool

module _ (decode : Bytes → Option ℕ) (settings : Settings) (response : Bytes) where
  -- All that is done for one request.
  abbrev pub exchange : ℕ → List Event
  exchange n = before_write settings n ++ after_write settings response

  abbrev pub exchanges : List ℕ → List Event
  exchanges [] = []
  exchanges (n ∷ lens) = exchange n ++ exchanges lens

  -- The abstract server takes the requests of lengths `lens`, the first of them as number `k`: one
  -- exchange for each, until a write fails, which ends it.
  abbrev pub answered : (ℕ → Bool) → ℕ → List ℕ → Answered
  answered write_succeeds k [] = record { events = []; begun = 0; alive = true }
  answered write_succeeds k (n ∷ lens) =
      let rest = answered write_succeeds ((k + 1) % 2 ^ 64) lens in
      if write_succeeds k
      then record { events = exchange n ++ rest.events; begun = suc rest.begun; alive = rest.alive }
      else record { events = before_write settings n; begun = 1; alive = false }

  -- With `k` requests and some events before, the loop comes to the outcome `ended` or, after a failed
  -- write, to `failed`, having done what the abstract server does for the requests of lengths `lens`. A
  -- loop that has not failed has no complete request left.
  abbrev Serves : (ℕ → Bool) → (Connection → Outcome) → ℕ → List Event → Outcome → List ℕ → Type 0
  Serves write_succeeds ended k events o lens =
      let a = answered write_succeeds k lens in
      (d : Connection) × (o ≡ (if a.alive then ended d else failed d))
      × ((if a.alive then decode (pending d) else none) ≡ none)
      × (d.requests_served ≡ (k + a.begun) % 2 ^ 64)
      × (d.events ≡ events ++ a.events)

  module _ (write_succeeds : ℕ → Bool)
      (decode-bounds : (s : Bytes) (n : ℕ) → decode s ≡ some n → (1 ≤ n) × (n ≤ length s))
      (decode-stable : (s t : Bytes) (n : ℕ) → decode s ≡ some n → decode (s ++ t) ≡ some n) where
    parse_requests-Serves :
        (ended : Connection → Outcome) (fuel : ℕ) (c : Connection) (rest : Connection → Outcome)
        → (future : Bytes) → length (pending c) ≤ fuel
        → IsKept c
        → ((d : Connection)
            → IsKept d
            → decode (pending d) ≡ none
            → Serves write_succeeds ended d.requests_served d.events
                (rest d)
                (requests decode (pending d ++ future)))
        → Serves write_succeeds ended c.requests_served c.events
            (parse_requests decode settings response write_succeeds fuel c rest)
            (requests decode (pending c ++ future))
    unfolding parse_requests
    parse_requests-Serves ended zero c rest future f k next =
        elim (Option-cases (decode (pending c))) [
          | inl e ↦ next c k e
          | inr (n, e) ↦
              let bounds = decode-bounds (pending c) n e in
              absurd (omega (arith, bounds.0, bounds.1))
        ]
    parse_requests-Serves ended (suc fuel) c rest future f k next =
        elim (Option-cases (decode (pending c))) [
          | inl e ↦ rw (parse_requests, e) (next c k e)
          | inr (n, e) ↦
              let bounds = decode-bounds (pending c) n e in
              let d =
                accept decode settings response write_succeeds c n
                  (after_write settings response) in
              let fits : length (pending c) ≡ length c.buf - c.parsed =
                length-drop c.parsed c.buf in
              let left : pending d ≡ drop n (pending c) = drop_add c.parsed n c.buf in
              let fewer : length (drop n (pending c)) ≡ length (pending c) - n =
                length-drop n (pending c) in
              let d_kept : IsKept d = record {
                inside = omega (arith, bounds.1, k.inside);
                counted = omega arith;
              } in
              let rec =
                parse_requests-Serves ended fuel d rest future
                  (subst (λ (s : Bytes). length s ≤ fuel) (sym left) (omega (arith, bounds.0)))
                  d_kept next in
              let split : requests decode (pending c ++ future)
                  ≡ n ∷ requests decode (pending d ++ future) =
                requests-some decode decode-bounds (pending c ++ future) n
                  (decode-stable (pending c) future n e)
                ∙ ap (λ (s : Bytes). n ∷ requests decode s)
                    (drop_append n (pending c) future bounds.1
                      ∙ ap (λ (s : Bytes). s ++ future) (sym left)) in
              elim (Bool-cases (write_succeeds c.requests_served)) [
                | inl y ↦
                    rw (parse_requests, e, split, answered, y)
                      (
                        rec.0,
                        rec.1,
                        rec.2,
                        omega (arith, rec.3),
                        rec.4
                            ∙ append_assoc c.events (exchange n)
                                (answered write_succeeds d.requests_served
                                  (requests decode (pending d ++ future))).events,
                      )
                | inr m ↦
                    rw (parse_requests, e, split, answered, m)
                      (
                        accept decode settings response write_succeeds c n [],
                        refl,
                        refl,
                        refl,
                        ap (◌++◌ c.events) (append-nil (before_write settings n)),
                      )
              ]
        ]

    abbrev pub IsChunk : Bytes → Type 0
    IsChunk b = 1 ≤ length b

    serve-Serves :
        (ending : List (Option Bytes)) (ended : Connection → Outcome)
        → ((c : Connection)
            → serve decode settings response write_succeeds ending c ≡ ended (reset_or_compact c))
        → (chunks : List Bytes) (c : Connection) → All IsChunk chunks
        → IsKept c
        → decode (pending c) ≡ none
        → Serves write_succeeds ended c.requests_served c.events
            (serve decode settings response write_succeeds (map some chunks ++ ending) c)
            (requests decode (pending c ++ concat chunks))
    unfolding serve
    serve-Serves ending ended ends [] c all k e =
        let same = reset_or_compact-SameProgress c k in
        let nothing : requests decode (pending c ++ []) ≡ [] =
          ap (requests decode) (append-nil (pending c))
          ∙ requests-none decode decode-bounds (pending c) e in
        rw nothing (
          reset_or_compact c,
          ends c,
          ap decode same.same_pending ∙ e,
          omega (arith, same.same_served, k.counted),
          same.same_events ∙ sym (append-nil c.events),
        )
    serve-Serves ending ended ends ([] ∷ chunks) c all k e = absurd (omega (arith, all.0))
    serve-Serves ending ended ends ((b ∷ data_bytes) ∷ chunks) c all k e =
        let same = reset_or_compact-SameProgress c k in
        let r = receive (reset_or_compact c) (b ∷ data_bytes) in
        let r_pending : pending r ≡ pending c ++ (b ∷ data_bytes) =
          receive-pending (reset_or_compact c) (b ∷ data_bytes) same.kept
          ∙ ap (λ (s : Bytes). s ++ (b ∷ data_bytes)) same.same_pending in
        let less : length (pending r) ≡ length r.buf - r.parsed = length-drop r.parsed r.buf in
        let rec =
          parse_requests-Serves ended (length r.buf) r
            (serve decode settings response write_succeeds (map some chunks ++ ending))
            (concat chunks) (omega arith)
            (receive-IsKept (reset_or_compact c) (b ∷ data_bytes) same.kept)
            (λ d kd ed. serve-Serves ending ended ends chunks d all.1 kd ed) in
        let same_stream : pending r ++ concat chunks
            ≡ pending c ++ ((b ∷ data_bytes) ++ concat chunks) =
          ap (λ (s : Bytes). s ++ concat chunks) r_pending
          ∙ append_assoc (pending c) (b ∷ data_bytes) (concat chunks) in
        let moved = receive-same (reset_or_compact c) (b ∷ data_bytes) in
        let served : r.requests_served ≡ c.requests_served = moved.0 ∙ same.same_served in
        let events : r.events ≡ c.events = moved.1 ∙ same.same_events in
        let o =
          serve decode settings response write_succeeds
            (map some ((b ∷ data_bytes) ∷ chunks) ++ ending) c in
        let whole = pending c ++ ((b ∷ data_bytes) ++ concat chunks) in
        subst (λ (k : ℕ). Serves write_succeeds ended k c.events o (requests decode whole)) served
          (subst
            (λ (ev : List Event).
              Serves write_succeeds ended r.requests_served ev o (requests decode whole))
            events
            (subst
              (λ (st : Bytes).
                Serves write_succeeds ended r.requests_served r.events o (requests decode st))
              same_stream rec))

    idle : decode [] ≡ none
    idle = elim (Option-cases (decode [])) [
      | inl e ↦ e
      | inr (n, e) ↦ absurd (omega (arith, (decode-bounds [] n e).0, (decode-bounds [] n e).1))
    ]

    fresh : IsKept start
    fresh = record { inside = omega arith; counted = omega arith }

    -- For a parser that finds requests of at least one byte and within its input, and whose answer
    -- more bytes do not change: whatever the non-empty pieces in which a stream is read before its end,
    -- and whichever writes succeed, the loop does what the abstract server does for the requests that
    -- the whole stream holds one behind the other: the same events in order and the same number of
    -- requests begun, modulo 2^64. It closes if no write failed, and fails at the first that did.
    pub serve-answered :
        (chunks : List Bytes)
        → All IsChunk chunks
        → let a = answered write_succeeds 0 (requests decode (concat chunks)) in
          (d : Connection) × (serve decode settings response write_succeeds
              (map some chunks ++ (some [] ∷ []))
              start
            ≡ (if a.alive then closed d else failed d))
          × (d.requests_served ≡ a.begun % 2 ^ 64)
          × (d.events ≡ a.events)
    unfolding serve
    serve-answered chunks all =
        let served = serve-Serves (some [] ∷ []) closed (λ c. refl) chunks start all fresh idle in
        (served.0, served.1, omega (arith, served.3), served.4)

    -- The same before the end of the stream: a loop that has not failed waits.
    pub serve-pending :
        (chunks : List Bytes)
        → All IsChunk chunks
        → let a = answered write_succeeds 0 (requests decode (concat chunks)) in
          (d : Connection) × (serve decode settings response write_succeeds (map some chunks) start
            ≡ (if a.alive then waiting d else failed d))
          × ((if a.alive then decode (pending d) else none) ≡ none)
          × (d.requests_served ≡ a.begun % 2 ^ 64)
          × (d.events ≡ a.events)
    unfolding serve
    serve-pending chunks all =
        let served = serve-Serves [] waiting (λ c. refl) chunks start all fresh idle in
        (
          served.0,
          ap
                (λ (reads : List (Option Bytes)).
                  serve decode settings response write_succeeds reads start)
                (sym (append-nil (map some chunks)))
              ∙ served.1,
          served.2,
          omega (arith, served.3),
          served.4,
        )
