-- ===== src/SmolIo.antt =====
-- src/smol.rs: the adapter SmolIo, through which hyper reads and writes a stream of smol. The stream is
-- a parameter, whose polls change its state; a read is told how much room there is, and has then
-- written so many bytes to the front of it. Advancing a cursor past its room would stop the program: `none`.
pub mod Reads
mod Tests
use statico.Prelude.{
  ℕ, ◌+◌, ◌-◌, Bool, List, [], ◌∷◌, ◌++◌, Option, none, some, ◌⊎◌, inl, inr, Bytes, length, leb,
  if◌then◌else◌,
}

pub data IoPoll (A : Type 0) : Type 0 where
  not_ready : IoPoll A
  ready : A → IoPoll A

-- What a cursor has filled, and the room behind.
pub record ReadBufCursor : Type 0 where
  pub filled : Bytes
  pub room : ℕ

-- `buf.advance(n)`, after bytes have been written to the front of the room.
unfoldable pub advance : Bytes → ReadBufCursor → Option ReadBufCursor
advance data_bytes buf =
    if leb (length data_bytes) buf.room
    then some (record { filled = buf.filled ++ data_bytes; room = buf.room - length data_bytes })
    else none

-- The polls of a stream.
pub record Stream (I E : Type 0) : Type 0 where
  pub inner_read : ℕ → I → IoPoll (E ⊎ Bytes) × I
  pub inner_write : Bytes → I → IoPoll (E ⊎ ℕ) × I
  pub inner_flush : I → IoPoll (E ⊎ ℕ) × I
  pub inner_close : I → IoPoll (E ⊎ ℕ) × I

module _ {I E : Type 0} (stream : Stream I E) where
  unfoldable pub poll_read : ReadBufCursor → I → Option (IoPoll (Option E) × ReadBufCursor × I)
  poll_read buf s =
      let polled = stream.inner_read buf.room s in
      elim polled.0 [
        | ready (inr data_bytes) ↦ elim (advance data_bytes buf) [
          | none ↦ none
          | some advanced ↦ some (ready none, advanced, polled.1)
        ]
        | ready (inl e) ↦ some (ready (some e), buf, polled.1)
        | not_ready ↦ some (not_ready, buf, polled.1)
      ]

  unfoldable pub poll_write : Bytes → I → IoPoll (E ⊎ ℕ) × I
  poll_write buf s = stream.inner_write buf s

  unfoldable pub poll_flush : I → IoPoll (E ⊎ ℕ) × I
  poll_flush s = stream.inner_flush s

  unfoldable pub poll_shutdown : I → IoPoll (E ⊎ ℕ) × I
  poll_shutdown s = stream.inner_close s
