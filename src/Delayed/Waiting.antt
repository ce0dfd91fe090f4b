-- ===== src/Delayed/Waiting.antt =====
-- What a delayed body gives, poll after poll.
use statico.Prelude.{
  ℕ, zero, suc, ◌+◌, Bool, true, false, List, [], ◌∷◌, ◌++◌, ◌≡◌, refl, ap, ◌∙◌, arith,
}
use statico.Delayed.{DelayedBody, new, poll_frame}

module _ {B D R : Type 0} (pending : R) (poll_inner : B → R × B) (poll_delay : D → Bool × D) where
  -- The timer runs out at poll number `k`, counted from 0.
  abbrev pub RunsOutAt : ℕ → D → Type 0
  RunsOutAt zero d = (poll_delay d).0 ≡ true
  RunsOutAt (suc k) d = ((poll_delay d).0 ≡ false) × RunsOutAt k (poll_delay d).1

  abbrev pub polls : ℕ → DelayedBody B D → List R
  polls zero b = []
  polls (suc n) b =
      (poll_frame pending poll_inner poll_delay b).0
      ∷ polls n (poll_frame pending poll_inner poll_delay b).1

  abbrev pub inner_polls : ℕ → B → List R
  inner_polls zero b = []
  inner_polls (suc n) b = (poll_inner b).0 ∷ inner_polls n (poll_inner b).1

  abbrev pub pendings : ℕ → List R
  pendings zero = []
  pendings (suc k) = pending ∷ pendings k

  polls_finished :
      (n : ℕ) (inner : B) (delay : D)
      → polls n (record { inner = inner; delay = delay; delay_finished = true })
        ≡ inner_polls n inner
  unfolding poll_frame
  polls_finished zero inner delay = refl
  polls_finished (suc n) inner delay =
      ap (◌∷◌ (poll_inner inner).0) (polls_finished n (poll_inner inner).1 delay)

  -- A timer that runs out at poll `k`: a delayed body is pending for `k` polls, and from then on gives
  -- what the inner body gives, from its first poll on.
  pub polls-new :
      (k n : ℕ) (inner : B) (delay : D)
      → RunsOutAt k delay
      → polls (k + suc n) (new inner delay) ≡ pendings k ++ inner_polls (suc n) inner
  unfolding poll_frame new
  polls-new zero n inner delay h =
      let first : poll_frame pending poll_inner poll_delay (new inner delay) ≡ (
        (poll_inner inner).0,
        record {
          inner = (poll_inner inner).1;
          delay = (poll_delay delay).1;
          delay_finished = true;
        },
      ) =
        rw (poll_frame, h) refl in
      ap (λ (t : ℕ). polls t (new inner delay)) {y = suc n} (omega arith)
      ∙ ((λ i. (first i).0 ∷ polls n (first i).1)
          ∙ ap (◌∷◌ (poll_inner inner).0)
              (polls_finished n (poll_inner inner).1 (poll_delay delay).1))
  polls-new (suc k) n inner delay h =
      let first : poll_frame pending poll_inner poll_delay (new inner delay)
          ≡ (pending, new inner (poll_delay delay).1) =
        rw (poll_frame, h.0) refl in
      ap (λ (t : ℕ). polls t (new inner delay)) {y = suc (k + suc n)} (omega arith)
      ∙ ((λ i. (first i).0 ∷ polls (k + suc n) (first i).1)
          ∙ ap (◌∷◌ pending) (polls-new k n inner (poll_delay delay).1 h.1))
