-- ===== src/SmolIo/Tests.antt =====
-- A stream that reads two bytes at a time, as far as there is room.
use statico.Prelude.{ℕ, [], ◌∷◌, inr, some, ◌≡◌, refl, Bytes, take, drop, length, min, codes}
use statico.SmolIo.{not_ready, ready, Stream, poll_read, advance}
use statico.SmolIo.Reads.{adapter_reads}

abbrev bytes_stream : Stream Bytes ℕ
bytes_stream = record {
  inner_read = λ room s. (ready (inr (take (min room 2) s)), drop (min room 2) s);
  inner_write = λ b s. (ready (inr (length b)), s);
  inner_flush = λ s. (not_ready, s);
  inner_close = λ s. (ready (inr 0), s);
}

three_reads :
    adapter_reads bytes_stream (8 ∷ (1 ∷ (8 ∷ []))) (codes "abcdef")
    ≡ some (codes "abcde", codes "f")
unfolding poll_read advance
three_reads = refl
