-- ===== src/Mcp/Sse/Frames.antt =====
-- The frames of a streamed answer.
use statico.Prelude.{
  ℕ, zero, suc, ◌+◌, Bool, List, [], ◌∷◌, ◌++◌, Option, none, some, ◌≡◌, refl, sym, ap, ◌∙◌, Bytes,
  length, get_elem?, drop, drop-nil, drop_add,
}
use statico.Mcp.Sse.{Poll, pending, frame, ended, McpBody, sse, poll_final, poll_frame}

abbrev head? : List Bytes → Option Bytes
head? [] = none
head? (x ∷ xs) = some x

get_elem?-drop : (xs : List Bytes) (i : ℕ) → get_elem? xs i ≡ head? (drop i xs)
get_elem?-drop [] i = ap head? (sym (drop-nil i))
get_elem?-drop (x ∷ xs) zero = refl
get_elem?-drop (x ∷ xs) (suc i) = get_elem?-drop xs i

module _ {F : Type 0} (poll_full : F → Poll × F) (full_is_end_stream : F → Bool) where
  -- The frames of a body that is polled until its end, at most `fuel` times.
  abbrev pub collect : ℕ → McpBody F → Option (List Bytes)
  collect zero body = none
  collect (suc fuel) body =
      let polled = poll_frame poll_full full_is_end_stream body in
      let rest = collect fuel polled.1 in
      elim polled.0 [
        | pending ↦ none
        | ended ↦ some []
        | frame data_bytes ↦ elim rest [ none ↦ none | some frames ↦ some (data_bytes ∷ frames) ]
      ]

  collect-frame :
      (fuel : ℕ) (body rest : McpBody F) (data_bytes : Bytes) (frames : List Bytes)
      → poll_frame poll_full full_is_end_stream body ≡ (frame data_bytes, rest)
      → collect fuel rest ≡ some frames
      → collect (suc fuel) body ≡ some (data_bytes ∷ frames)
  collect-frame fuel body rest data_bytes frames first more =
      ap
        (λ (polled : Poll × McpBody F). elim polled.0 [
          | pending ↦ none
          | ended ↦ some []
          | frame b ↦ elim (collect fuel polled.1) [ none ↦ none | some fs ↦ some (b ∷ fs) ]
        ])
        first
      ∙ rw more refl

  collect_from :
      (left : List Bytes) (notifications : List Bytes) (idx : ℕ) (last : Bytes)
      → drop idx notifications ≡ left
      → collect (suc (suc (length left))) (sse notifications idx (some last))
        ≡ some (left ++ (last ∷ []))
  unfolding poll_frame poll_final
  collect_from [] notifications idx last h =
      let here : get_elem? notifications idx ≡ none =
        get_elem?-drop notifications idx ∙ ap head? h in
      let first : poll_frame poll_full full_is_end_stream (sse notifications idx (some last))
          ≡ (frame last, sse notifications idx none) =
        rw (poll_frame, here) refl in
      let second : poll_frame poll_full full_is_end_stream (sse notifications idx none)
          ≡ (ended, sse notifications idx none) =
        rw (poll_frame, here) refl in
      collect-frame 1 (sse notifications idx (some last)) (sse notifications idx none) last [] first
        (ap
          (λ (polled : Poll × McpBody F). elim polled.0 [
            | pending ↦ none
            | ended ↦ some []
            | frame b ↦ none
          ])
          second)
  collect_from (n ∷ left) notifications idx last h =
      let here : get_elem? notifications idx ≡ some n =
        get_elem?-drop notifications idx ∙ ap head? h in
      let behind : drop (idx + 1) notifications ≡ left =
        drop_add idx 1 notifications ∙ ap (drop 1) h in
      collect-frame (suc (suc (length left))) (sse notifications idx (some last))
        (sse notifications (idx + 1) (some last)) n (left ++ (last ∷ []))
        (rw (poll_frame, here) refl) (collect_from left notifications (idx + 1) last behind)

  -- Polled until its end, a streamed answer gives every notification in order, then the final event,
  -- and the end after that.
  pub collect-sse :
      (notifications : List Bytes) (last : Bytes)
      → collect (suc (suc (length notifications))) (sse notifications 0 (some last))
        ≡ some (notifications ++ (last ∷ []))
  collect-sse notifications last = collect_from notifications notifications 0 last refl
