-- ===== src/Mcp/Sse/Wire.antt =====
-- The size of a streamed answer on the wire, as it is recorded.
use statico.Prelude.{
  ◌+◌, ◌%◌, ◌^◌, ◌≤◌, ◌<◌, true, false, List, [], ◌∷◌, ◌++◌, some, ◌≡◌, Bytes, length,
  length-append, All, arith, hex, codes,
}
use statico.Http.{chunked_body_wire_size}
use statico.Http.Chunked.{crlf, chunked_body_wire_size-length}
use statico.Mcp.Sse.{
  crlf_bytes, write_chunks, write_plain, concat_sse_for_log, sum_wire_bytes, sse_notif_wire_bytes,
}

abbrev pub IsFilled : Bytes → Type 0
IsFilled b = 1 ≤ length b

-- The digits, the line feeds and the bytes of one chunk.
chunk_bytes :
    (b : Bytes)
    → IsFilled b
    → length b < 2 ^ 63
    → chunked_body_wire_size (length b) ≡ length (hex (length b)) + 2 + length b + 2 + 5
chunk_bytes [] f h = absurd (omega arith)
chunk_bytes (c ∷ b) f h = omega (
  arith,
  chunked_body_wire_size-length (c ∷ b) h,
  length-append (hex (length (c ∷ b))) (crlf ++ ((c ∷ b) ++ crlf)),
  length-append (c ∷ b) crlf,
  length-append (hex (length (c ∷ b)) ++ (crlf ++ ((c ∷ b) ++ crlf))) (codes "0\r\n\r\n"),
)

length-write_chunks :
    (notifs : List Bytes)
    → All IsFilled notifs
    → length (write_plain notifs) < 2 ^ 63
    → sum_wire_bytes false notifs ≡ length (write_chunks notifs) % 2 ^ 64
unfolding sum_wire_bytes write_chunks write_plain
length-write_chunks [] all h = omega arith
length-write_chunks (b ∷ notifs) all h =
    let both = length-append b (write_plain notifs) in
    omega (
      arith,
      length-write_chunks notifs all.1 (omega arith),
      chunk_bytes b all.0 (omega arith),
      length-append (hex (length b)) (crlf_bytes ++ (b ++ (crlf_bytes ++ write_chunks notifs))),
      length-append b (crlf_bytes ++ write_chunks notifs),
    )

length-write_plain :
    (notifs : List Bytes) → sum_wire_bytes true notifs ≡ length (write_plain notifs) % 2 ^ 64
unfolding sum_wire_bytes write_plain
length-write_plain [] = omega arith
length-write_plain (b ∷ notifs) =
    omega (arith, length-write_plain notifs, length-append b (write_plain notifs))

-- For notifications and a final event that are not empty, and below 2^63 bytes in all, the size
-- recorded for HTTP/1.1 is the length of the chunked bytes, and for HTTP/2 that of the plain bytes,
-- modulo 2^64.
pub length-concat_sse_for_log :
    (notifs : List Bytes) (final_event : Bytes)
    → All IsFilled notifs
    → IsFilled final_event
    → length (write_plain notifs) < 2 ^ 63
    → length final_event < 2 ^ 63
    → ((sse_notif_wire_bytes false (some notifs) + chunked_body_wire_size (length final_event))
          % 2 ^ 64
        ≡ length (concat_sse_for_log notifs final_event true) % 2 ^ 64)
      × ((sse_notif_wire_bytes true (some notifs) + length final_event) % 2 ^ 64
          ≡ length (concat_sse_for_log notifs final_event false) % 2 ^ 64)
unfolding sse_notif_wire_bytes concat_sse_for_log
length-concat_sse_for_log notifs final_event all f h g =
    let close = codes "\r\n0\r\n\r\n" in
    (
      omega (
        arith,
        length-write_chunks notifs all h,
        chunk_bytes final_event f g,
        length-append (write_chunks notifs)
            (hex (length final_event) ++ (crlf_bytes ++ (final_event ++ close))),
        length-append (hex (length final_event)) (crlf_bytes ++ (final_event ++ close)),
        length-append final_event close,
      ),
      omega (arith, length-write_plain notifs, length-append (write_plain notifs) final_event),
    )
