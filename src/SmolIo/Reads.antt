-- ===== src/SmolIo/Reads.antt =====
-- The reads of SmolIo against those of its stream.
use statico.Prelude.{
  ℕ, ◌-◌, ◌≤◌, true, List, [], ◌∷◌, ◌++◌, Option, none, some, ◌⊎◌, inl, inr, ◌≡◌, refl, ap, Bytes,
  length, leb, arith,
}
use statico.SmolIo.{IoPoll, not_ready, ready, ReadBufCursor, advance, Stream, poll_read}

-- What a poll of the stream has read.
abbrev pub delivered : {E : Type 0} → IoPoll (E ⊎ Bytes) → Bytes
delivered not_ready = []
delivered (ready (inl e)) = []
delivered (ready (inr data_bytes)) = data_bytes

module _ {I E : Type 0} (stream : Stream I E) where
  -- The bytes of one poll of the stream after the other, each with so much room.
  abbrev pub direct_reads : List ℕ → I → Bytes × I
  direct_reads [] s = ([], s)
  direct_reads (room ∷ rooms) s =
      let polled = stream.inner_read room s in
      let rest = direct_reads rooms polled.1 in (delivered polled.0 ++ rest.0, rest.1)

  -- The bytes that polls of the adapter fill cursors with.
  abbrev pub adapter_reads : List ℕ → I → Option (Bytes × I)
  adapter_reads [] s = some ([], s)
  adapter_reads (room ∷ rooms) s = elim (poll_read stream (record { filled = []; room = room }) s) [
    | none ↦ none
    | some polled ↦ elim (adapter_reads rooms polled.2) [
      | none ↦ none
      | some rest ↦ some (polled.1.filled ++ rest.0, rest.1)
    ]
  ]

  -- The polls of the adapter by what the stream has polled.
  polled_lem :
      (room : ℕ) (s : I) (p : IoPoll (E ⊎ Bytes))
      → ((stream.inner_read room s).0 ≡ p)
      → ((data_bytes : Bytes) → p ≡ ready (inr data_bytes) → length data_bytes ≤ room)
      → (answer : IoPoll (Option E)) × (buf : ReadBufCursor) × (poll_read stream
            (record { filled = []; room = room })
            s
          ≡ some (answer, buf, (stream.inner_read room s).1))
        × (buf.filled ≡ delivered p)
  unfolding poll_read advance
  polled_lem room s not_ready e h =
      (not_ready, record { filled = []; room = room }, rw (poll_read, e) refl, refl)
  polled_lem room s (ready (inl x)) e h =
      (ready (some x), record { filled = []; room = room }, rw (poll_read, e) refl, refl)
  polled_lem room s (ready (inr data_bytes)) e h =
      let fits = h data_bytes refl in
      let inside : leb (length data_bytes) room ≡ true = ground arith in
      (
        ready none,
        record { filled = data_bytes; room = room - length data_bytes },
        rw (poll_read, e, advance, inside) refl,
        refl,
      )

  -- For a stream that never reads more than it has room for: a series of polls of the adapter never
  -- stops the program, fills its cursors with exactly what the stream would read when it was polled itself, in order, and
  -- leaves the stream in the same state.
  pub adapter_reads-direct_reads :
      ((room : ℕ) (s : I) (data_bytes : Bytes)
        → (stream.inner_read room s).0 ≡ ready (inr data_bytes)
        → length data_bytes ≤ room)
      → (rooms : List ℕ) (s : I) → adapter_reads rooms s ≡ some (direct_reads rooms s)
  adapter_reads-direct_reads bounded [] s = refl
  adapter_reads-direct_reads bounded (room ∷ rooms) s =
      let polled = polled_lem room s (stream.inner_read room s).0 refl (bounded room s) in
      rw
        (
          adapter_reads,
          polled.2,
          adapter_reads-direct_reads bounded rooms (stream.inner_read room s).1,
        )
        (ap
          (λ b. some (
            b ++ (direct_reads rooms (stream.inner_read room s).1).0,
            (direct_reads rooms (stream.inner_read room s).1).1,
          ))
          polled.3)
