-- ===== src/Connections/Memory.antt =====
-- The buffer of the connection loops as memory: a Vec<u8> of which the first `len` bytes are in use, and
-- whose capacity is the whole allocation. The loops of src/tokio_uring.rs, src/monoio.rs and
-- src/compio.rs lend the spare capacity to the kernel as a vector of its own, that of src/glommio.rs as
-- a slice. A read writes behind the bytes in use. An access outside the allocation, or a copy that would
-- stop the program, is `none`. Growing the allocation (Vec::reserve) is a parameter.
pub mod Views
pub mod Refines
use statico.Prelude.{
  ℕ, zero, suc, ◌+◌, ◌-◌, Bool, List, [], ◌∷◌, ◌++◌, ◌&&◌, Option, none, some, Bytes, length, take,
  drop, ltb, leb, ◌==◌, if◌then◌else◌,
}
use statico.Connections.{
  Connection, Event, Outcome, refused, panicked, closed, failed, waiting, Settings, parse_requests,
}

pub record Memory : Type 0 where
  pub bytes : Bytes
  pub len : ℕ

abbrev pub capacity : Memory → ℕ
capacity m = length m.bytes

-- The bytes in use.
abbrev pub view : Memory → Bytes
view m = take m.len m.bytes

abbrev pub set_len : ℕ → Memory → Memory
set_len n m = record { bytes = m.bytes; len = n }

-- Writing bytes from an offset on.
unfoldable pub overwrite : ℕ → Bytes → Bytes → Option Bytes
overwrite offset data_bytes bytes =
    if leb (offset + length data_bytes) (length bytes)
    then some (take offset bytes ++ (data_bytes ++ drop (offset + length data_bytes) bytes))
    else none

-- `buf.copy_within(parsed.., 0)`
unfoldable pub copy_within : ℕ → Memory → Option Memory
copy_within parsed m =
    if leb parsed m.len
    then elim (overwrite 0 (drop parsed (view m)) m.bytes) [
      | none ↦ none
      | some bytes ↦ some (record { bytes = bytes; len = m.len })
    ]
    else none

-- The variables of the loop.
pub record Buffered : Type 0 where
  pub memory : Memory
  pub parsed : ℕ
  pub requests_served : ℕ
  pub events : List Event

abbrev pub with_memory : Buffered → Memory → ℕ → Buffered
with_memory s memory parsed = record {
  memory = memory;
  parsed = parsed;
  requests_served = s.requests_served;
  events = s.events;
}

abbrev pub connection_of : Buffered → Connection
connection_of s = record {
  buf = view s.memory;
  parsed = s.parsed;
  requests_served = s.requests_served;
  events = s.events;
}

-- The variables after the inner loop, which does not change the buffer.
abbrev pub resumed : Memory → Connection → Buffered
resumed memory c = record {
  memory = memory;
  parsed = c.parsed;
  requests_served = c.requests_served;
  events = c.events;
}

abbrev pub start_buffered : Memory → Buffered
start_buffered memory = record { memory = memory; parsed = 0; requests_served = 0; events = [] }

-- The fast and the slow path.
unfoldable pub reuse : Buffered → Option Buffered
reuse s =
    if s.parsed == s.memory.len && ltb 0 s.parsed
    then some (with_memory s (set_len 0 s.memory) 0)
    else (if ltb 4096 s.parsed
        then elim (copy_within s.parsed s.memory) [
          | none ↦ none
          | some memory ↦ some (with_memory s (set_len (memory.len - s.parsed) memory) 0)
        ]
        else some s)

abbrev pub spare_cap : Memory → ℕ
spare_cap m = capacity m - m.len

-- What a read has written behind the bytes in use, and the new length.
unfoldable pub fill : Memory → Bytes → Option Memory
fill m data_bytes = elim (overwrite m.len data_bytes m.bytes) [
  | none ↦ none
  | some bytes ↦ some (record { bytes = bytes; len = m.len + length data_bytes })
]

module _ (reserve : ℕ → Memory → Memory) where
  abbrev pub ensure_spare : Memory → Memory
  ensure_spare m = if ltb (spare_cap m) 4096 then reserve 4096 m else m

  -- The top of the loop, up to the read.
  unfoldable pub make_room : Buffered → Option Buffered
  make_room s = elim (reuse s) [
    | none ↦ none
    | some r ↦ some (with_memory r (ensure_spare r.memory) r.parsed)
  ]

  module _ (decode : Bytes → Option ℕ) (settings : Settings) (response : Bytes)
      (write_succeeds : ℕ → Bool) where
    -- The loop. What the kernel delivers depends on the capacity that it is lent.
    unfoldable pub serve_buffered : List (ℕ → Option Bytes) → Buffered → Option Outcome
    serve_buffered [] s = elim (make_room s) [
      | none ↦ none
      | some r ↦ some (waiting (connection_of r))
    ]
    serve_buffered (read ∷ reads) s = elim (make_room s) [
      | none ↦ none
      | some r ↦ elim (read (spare_cap r.memory)) [
        | none ↦ some (failed (connection_of r))
        | some [] ↦ some (closed (connection_of r))
        | some (b ∷ data_bytes) ↦ elim (fill r.memory (b ∷ data_bytes)) [
          | none ↦ none
          | some memory ↦
              elim (parse_requests decode settings response write_succeeds (length (view memory))
                (connection_of (with_memory r memory r.parsed)) waiting) [
                  | waiting c ↦ serve_buffered reads (resumed memory c)
                  | failed c ↦ some (failed c)
                  | closed c ↦ some (closed c)
                  | refused ↦ some refused
                  | panicked ↦ some panicked
                ]
        ]
      ]
    ]
