-- ===== src/Connections/Memory/Refines.antt =====
-- The loop on memory against the loop on a list of bytes.
use statico.Prelude.{
  ℕ, zero, suc, ◌+◌, ◌^◌, ◌≤◌, Bool, List, [], ◌∷◌, map, Option, none, some, ◌⊎◌, ◌≡◌, refl, sym,
  ap, ◌∙◌, subst, Bytes, length, drop, All, arith, Bool-cases, Option-cases, inl, inr, length-drop,
}
use native.Mathlib.Nat.{mod-lt}
use statico.Connections.{
  Connection, Outcome, closed, failed, waiting, Settings, start, reset_or_compact, receive,
  after_write, accept, parse_requests, serve,
}
use statico.Connections.Buffers.{IsKept, reset_or_compact-SameProgress, receive-IsKept}
use statico.Connections.Memory.{
  Memory, view, Buffered, with_memory, connection_of, resumed, start_buffered, spare_cap,
  serve_buffered, capacity,
}
use statico.Connections.Memory.Views.{
  IsSound, length-view, fill-view, connection_eq, make_room-Reuses,
}

-- Reads that the kernel delivers when it is lent at least 4096 bytes each time.
abbrev pub Delivers : List (ℕ → Option Bytes) → List (Option Bytes) → Type 0
Delivers [] [] = Unit
Delivers (kernel ∷ kernels) (read ∷ reads) =
    ((cap : ℕ) × (4096 ≤ cap) × (kernel cap ≡ read)) × Delivers kernels reads
Delivers _ _ = ⊥

-- The kernel never delivers more than it was lent.
abbrev pub IsBounded : (ℕ → Option Bytes) → Type 0
IsBounded kernel =
    (cap : ℕ) (data_bytes : Bytes) → kernel cap ≡ some data_bytes → length data_bytes ≤ cap

some_reads : (kernels : List (ℕ → Option Bytes)) → Delivers kernels (map (λ k. k 4096) kernels)
some_reads [] = tt
some_reads (kernel ∷ kernels) = ((4096, omega arith, refl), some_reads kernels)

read_cases :
    (r : Option Bytes)
    → (r ≡ none) ⊎ ((r ≡ some []) ⊎ ((b : ℕ) × (data_bytes : Bytes) × (r ≡ some (b ∷ data_bytes))))
read_cases none = inl refl
read_cases (some []) = inr (inl refl)
read_cases (some (b ∷ data_bytes)) = inr (inr (b, data_bytes, refl))

module _ (decode : Bytes → Option ℕ) (settings : Settings) (response : Bytes)
    (write_succeeds : ℕ → Bool)
    (decode-bounds : (s : Bytes) (n : ℕ) → decode s ≡ some n → (1 ≤ n) × (n ≤ length s)) where
  -- The inner loop fails, or goes on with the same buffer, whatever comes next.
  parse_requests_cases :
      (fuel : ℕ) (c : Connection)
      → IsKept c
      → ((d : Connection) × ((k : Connection → Outcome)
            → parse_requests decode settings response write_succeeds fuel c k ≡ failed d))
        ⊎ ((d : Connection) × (d.buf ≡ c.buf)
            × IsKept d
            × ((k : Connection → Outcome)
                → parse_requests decode settings response write_succeeds fuel c k ≡ k d))
  unfolding parse_requests
  parse_requests_cases zero c kept = inr (c, refl, kept, λ k. refl)
  parse_requests_cases (suc fuel) c kept = elim (Option-cases (decode (drop c.parsed c.buf))) [
    | inl e ↦ inr (c, refl, kept, λ k. rw (parse_requests, e) refl)
    | inr (n, e) ↦
        let bounds = decode-bounds (drop c.parsed c.buf) n e in
        let next : Connection =
          accept decode settings response write_succeeds c n (after_write settings response) in
        let next_kept : IsKept next = record {
          inside = omega (arith, bounds.1, length-drop c.parsed c.buf, kept.inside);
          counted = mod-lt (c.requests_served + 1) {m = 2 ^ 64} (omega arith);
        } in
        elim (Bool-cases (write_succeeds c.requests_served)) [
          | inr n_w ↦ inl (
            accept decode settings response write_succeeds c n [],
            λ k. rw (parse_requests, e, n_w) refl,
          )
          | inl y ↦ elim (parse_requests_cases fuel next next_kept) [
            | inl (d, h) ↦ inl (d, λ k. rw (parse_requests, e, y) (h k))
            | inr (d, same, d_kept, h) ↦ inr (d, same, d_kept, λ k. rw (parse_requests, e, y) (h k))
          ]
        ]
  ]

  module _ (reserve : ℕ → Memory → Memory)
      (reserve-view : (n : ℕ) (m : Memory) → IsSound m → view (reserve n m) ≡ view m)
      (reserve-len : (n : ℕ) (m : Memory) → (reserve n m).len ≡ m.len)
      (reserve-capacity : (n : ℕ) (m : Memory) → m.len + n ≤ capacity (reserve n m)) where
    abbrev Refines : List (ℕ → Option Bytes) → Buffered → Type 0
    Refines kernels s =
        (reads : List (Option Bytes)) × Delivers kernels reads
        × (serve_buffered reserve decode settings response write_succeeds kernels s
            ≡ some (serve decode settings response write_succeeds reads (connection_of s)))

    -- The loops on a list of bytes, after a read.
    abbrev served : List (Option Bytes) → Connection → Outcome
    served reads = serve decode settings response write_succeeds reads

    abbrev parsed_from : Connection → (Connection → Outcome) → Outcome
    parsed_from c k = parse_requests decode settings response write_succeeds (length c.buf) c k

    serve_buffered-Refines :
        (kernels : List (ℕ → Option Bytes)) (s : Buffered)
        → All IsBounded kernels
        → IsSound s.memory
        → IsKept (connection_of s)
        → Refines kernels s
    unfolding serve_buffered serve receive
    serve_buffered-Refines [] s all sound kept =
        let room =
          make_room-Reuses reserve reserve-view reserve-len reserve-capacity s sound
            (omega (arith, kept.inside, length-view s.memory sound)) in
        ([], tt, rw (serve_buffered, room.1) (ap (λ c. some (waiting c)) room.2))
    serve_buffered-Refines (kernel ∷ kernels) s all sound kept =
        let room =
          make_room-Reuses reserve reserve-view reserve-len reserve-capacity s sound
            (omega (arith, kept.inside, length-view s.memory sound)) in
        let cap = spare_cap room.0.memory in
        elim (read_cases (kernel cap)) [
          | inl e ↦ (
            none ∷ map (λ k. k 4096) kernels,
            ((cap, room.4, e), some_reads kernels),
            rw (serve_buffered, room.1, e) (ap (λ c. some (failed c)) room.2),
          )
          | inr (inl e) ↦ (
            some [] ∷ map (λ k. k 4096) kernels,
            ((cap, room.4, e), some_reads kernels),
            rw (serve_buffered, room.1, e) (ap (λ c. some (closed c)) room.2),
          )
          | inr (inr (b, data_bytes, e)) ↦
              let filled =
                fill-view room.0.memory (b ∷ data_bytes) room.3 (all.0 cap (b ∷ data_bytes) e) in
              let got : Buffered = with_memory room.0 filled.0 room.0.parsed in
              let same : connection_of got
                  ≡ receive (reset_or_compact (connection_of s)) (b ∷ data_bytes) =
                connection_eq got (receive (connection_of room.0) (b ∷ data_bytes)) filled.2 refl
                  refl refl
                ∙ ap (λ c. receive c (b ∷ data_bytes)) room.2 in
              let got_kept : IsKept (connection_of got) = subst IsKept (sym same) (
                receive-IsKept _ (b ∷ data_bytes)
                  (reset_or_compact-SameProgress (connection_of s) kept).kept) in
              elim (parse_requests_cases (length (view filled.0)) (connection_of got) got_kept) [
                | inl (d, h) ↦
                    let rest = map (λ k. k 4096) kernels in
                    (
                      some (b ∷ data_bytes) ∷ rest,
                      ((cap, room.4, e), some_reads kernels),
                      rw (serve_buffered, room.1, e, filled.1, h waiting)
                          (ap some
                            (sym (h (served rest)) ∙ (λ i. parsed_from (same i) (served rest)))),
                    )
                | inr (d, same_buf, d_kept, h) ↦
                    let view_d : connection_of (resumed filled.0 d) ≡ d =
                      connection_eq (resumed filled.0 d) d (sym same_buf) refl refl refl in
                    let rest =
                      serve_buffered-Refines kernels (resumed filled.0 d) all.1 filled.3
                        (subst IsKept (sym view_d) d_kept) in
                    (
                      some (b ∷ data_bytes) ∷ rest.0,
                      ((cap, room.4, e), rest.1),
                      rw (serve_buffered, room.1, e, filled.1, h waiting)
                          (rest.2
                            ∙ ap some (
                                ap (served rest.0) view_d
                                ∙ (sym (h (served rest.0))
                                    ∙ (λ i. parsed_from (same i) (served rest.0))))),
                    )
              ]
        ]

    -- Let the parser find requests of at least one byte and within its input, let growing the allocation
    -- keep the bytes in use and make the room that is asked for, and let the kernel never deliver more
    -- than it is lent. Then from an allocation of any size with no bytes in use, the loop on memory never writes outside of its
    -- allocation and no copy stops it; it lends the kernel at least 4096 bytes at
    -- each read; and it comes to exactly the outcome to which the loop on the list of bytes comes for what the kernel has
    -- delivered.
    pub serve_buffered-serve :
        (kernels : List (ℕ → Option Bytes)) (bytes : Bytes)
        → All IsBounded kernels
        → (reads : List (Option Bytes)) × Delivers kernels reads
          × (serve_buffered reserve decode settings response write_succeeds kernels
                (start_buffered (record { bytes = bytes; len = 0 }))
              ≡ some (serve decode settings response write_succeeds reads start))
    serve_buffered-serve kernels bytes all =
        serve_buffered-Refines kernels (start_buffered (record { bytes = bytes; len = 0 })) all
          (omega arith) (record { inside = omega arith; counted = omega arith })
