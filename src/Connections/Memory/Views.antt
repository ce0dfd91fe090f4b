-- ===== src/Connections/Memory/Views.antt =====
-- What the operations on the memory of a connection do to the bytes in use.
use statico.Prelude.{
  ℕ, ◌+◌, ◌-◌, ◌≤◌, true, ◌&&◌, ◌++◌, append_assoc, Option, some, ◌≡◌, refl, sym, ap, ◌∙◌, Bytes,
  length, take, drop, ltb, leb, ◌==◌, arith, Bool-cases, inl, inr, length-append, length-take,
  length-drop, take-length_append,
}
use statico.Connections.{Connection, reset_or_compact}
use statico.Connections.Memory.{
  Memory, capacity, view, set_len, overwrite, copy_within, Buffered, with_memory, connection_of,
  reuse, spare_cap, fill, ensure_spare, make_room,
}

abbrev pub IsSound : Memory → Type 0
IsSound m = m.len ≤ capacity m

pub length-view : (m : Memory) → IsSound m → length (view m) ≡ m.len
length-view m s = length-take m.len m.bytes s

-- A write inside the allocation keeps what is in front of it and the size of the allocation.
abbrev Overwrites : ℕ → Bytes → Bytes → Option Bytes → Type 0
Overwrites offset data_bytes bytes result =
    (written : Bytes) × (result ≡ some written)
    × (take (offset + length data_bytes) written ≡ take offset bytes ++ data_bytes)
    × (length written ≡ length bytes)

overwrite-Overwrites :
    (offset : ℕ) (data_bytes bytes : Bytes)
    → offset + length data_bytes ≤ length bytes
    → Overwrites offset data_bytes bytes (overwrite offset data_bytes bytes)
unfolding overwrite
overwrite-Overwrites offset data_bytes bytes h =
    let inside : leb (offset + length data_bytes) (length bytes) ≡ true = ground arith in
    let front = length-take offset bytes (omega arith) in
    let size = length-append (take offset bytes) data_bytes in
    let back = drop (offset + length data_bytes) bytes in
    rw inside (
      take offset bytes ++ (data_bytes ++ back),
      refl,
      ap (take (offset + length data_bytes))
            (sym (append_assoc (take offset bytes) data_bytes back))
          ∙ (ap (λ n. take n ((take offset bytes ++ data_bytes) ++ back))
                {x = offset + length data_bytes} {y = length (take offset bytes ++ data_bytes)}
                (omega (arith, front, size))
              ∙ take-length_append (take offset bytes ++ data_bytes) back),
      omega (
        arith,
        length-append (take offset bytes) (data_bytes ++ back),
        length-append data_bytes back,
        front,
        length-drop (offset + length data_bytes) bytes,
      ),
    )

-- A read inside the spare capacity is appended to the bytes in use.
pub fill-view :
    (m : Memory) (data_bytes : Bytes)
    → IsSound m
    → length data_bytes ≤ spare_cap m
    → (filled : Memory) × (fill m data_bytes ≡ some filled)
      × (view filled ≡ view m ++ data_bytes)
      × IsSound filled
unfolding fill
fill-view m data_bytes s h =
    let written = overwrite-Overwrites m.len data_bytes m.bytes (omega arith) in
    rw (fill, written.1)
      (
        record { bytes = written.0; len = m.len + length data_bytes },
        refl,
        written.2,
        omega (arith, written.3),
      )

pub connection_eq :
    (s : Buffered) (c : Connection)
    → view s.memory ≡ c.buf
    → s.parsed ≡ c.parsed
    → s.requests_served ≡ c.requests_served
    → s.events ≡ c.events
    → connection_of s ≡ c
connection_eq s c p q r e =
    λ i. record { buf = p i; parsed = q i; requests_served = r i; events = e i }

-- What the fast and the slow path do, is what they do to the bytes in use.
abbrev pub Reuses : Buffered → Option Buffered → Type 0
Reuses s result =
    (r : Buffered) × (result ≡ some r)
    × (connection_of r ≡ reset_or_compact (connection_of s))
    × IsSound r.memory

pub reuse-Reuses : (s : Buffered) → IsSound s.memory → s.parsed ≤ s.memory.len → Reuses s (reuse s)
unfolding reuse reset_or_compact copy_within
reuse-Reuses s sound inside =
    let size = length-view s.memory sound in
    let test : (s.parsed == length (view s.memory) && ltb 0 s.parsed)
        ≡ (s.parsed == s.memory.len && ltb 0 s.parsed) =
      ap (λ n. s.parsed == n && ltb 0 s.parsed) size in
    elim (Bool-cases (s.parsed == s.memory.len && ltb 0 s.parsed)) [
      | inl y ↦
          rw (reuse, reset_or_compact, test, y)
            (with_memory s (set_len 0 s.memory) 0, refl, refl, omega arith)
      | inr m ↦ elim (Bool-cases (ltb 4096 s.parsed)) [
        | inl y ↦
            let moved : Bytes = drop s.parsed (view s.memory) in
            let short : length moved ≡ s.memory.len - s.parsed =
              length-drop s.parsed (view s.memory) ∙ ap (λ n. n - s.parsed) size in
            let allowed : leb s.parsed s.memory.len ≡ true = ground arith in
            let written = overwrite-Overwrites 0 moved s.memory.bytes (omega (arith, short)) in
            let memory : Memory = record { bytes = written.0; len = s.memory.len - s.parsed } in
            let kept : view memory ≡ moved =
              ap (λ n. take n written.0) {x = s.memory.len - s.parsed} {y = 0 + length moved}
                (omega (arith, short))
              ∙ written.2 in
            rw (reuse, reset_or_compact, copy_within, test, m, y, allowed, written.1)
              (
                with_memory s memory 0,
                refl,
                connection_eq (with_memory s memory 0) _ kept refl refl refl,
                omega (arith, written.3),
              )
        | inr n ↦ rw (reuse, reset_or_compact, test, m, n) (s, refl, refl, sound)
      ]
    ]

-- The growth of the allocation, as it is documented: the bytes in use stay, and there is room for more.
module _ (reserve : ℕ → Memory → Memory)
    (reserve-view : (n : ℕ) (m : Memory) → IsSound m → view (reserve n m) ≡ view m)
    (reserve-len : (n : ℕ) (m : Memory) → (reserve n m).len ≡ m.len)
    (reserve-capacity : (n : ℕ) (m : Memory) → m.len + n ≤ capacity (reserve n m)) where
  ensure_spare_lem :
      (m : Memory)
      → IsSound m
      → (view (ensure_spare reserve m) ≡ view m)
        × IsSound (ensure_spare reserve m)
        × (4096 ≤ spare_cap (ensure_spare reserve m))
  ensure_spare_lem m sound = elim (Bool-cases (ltb (spare_cap m) 4096)) [
    | inl y ↦
        rw (ensure_spare, y)
          (
            reserve-view 4096 m sound,
            omega (arith, reserve-len 4096 m, reserve-capacity 4096 m),
            omega (arith, reserve-len 4096 m, reserve-capacity 4096 m),
          )
    | inr n ↦ rw (ensure_spare, n) (refl, sound, ground arith)
  ]

  -- The top of the loop, for a connection whose buffer is in memory.
  pub make_room-Reuses :
      (s : Buffered)
      → IsSound s.memory
      → s.parsed ≤ s.memory.len
      → (r : Buffered) × (make_room reserve s ≡ some r)
        × (connection_of r ≡ reset_or_compact (connection_of s))
        × IsSound r.memory
        × (4096 ≤ spare_cap r.memory)
  unfolding make_room
  make_room-Reuses s sound inside =
      let reused = reuse-Reuses s sound inside in
      let room = ensure_spare_lem reused.0.memory reused.3 in
      rw (make_room, reused.1)
        (
          with_memory reused.0 (ensure_spare reserve reused.0.memory) reused.0.parsed,
          refl,
          connection_eq
                (with_memory reused.0 (ensure_spare reserve reused.0.memory) reused.0.parsed)
                (connection_of reused.0) room.0 refl refl refl
              ∙ reused.2,
          room.1,
          room.2,
        )
