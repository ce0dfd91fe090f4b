-- ===== src/Delayed.antt =====
-- src/delayed_body.rs: a body that waits for a timer before its first frame. The inner body and the
-- timer (crate tokio) are parameters: polling either gives its result and the state behind it, and
-- for the timer the result is whether it has run out. `pending` is `Poll::Pending`.
pub mod Waiting
mod Tests
use statico.Prelude.{ℕ, zero, suc, Bool, true, false, ◌&&◌, List, [], ◌∷◌, if◌then◌else◌}

pub record DelayedBody (B D : Type 0) : Type 0 where
  pub inner : B
  pub delay : D
  pub delay_finished : Bool

unfoldable pub new : {B D : Type 0} → B → D → DelayedBody B D
new inner delay = record { inner = inner; delay = delay; delay_finished = false }

module _ {B D R : Type 0} (pending : R) (poll_inner : B → R × B) (poll_delay : D → Bool × D) where
  abbrev pub delegate : DelayedBody B D → R × DelayedBody B D
  delegate b = (
    (poll_inner b.inner).0,
    record { inner = (poll_inner b.inner).1; delay = b.delay; delay_finished = b.delay_finished },
  )

  unfoldable pub poll_frame : DelayedBody B D → R × DelayedBody B D
  poll_frame b =
      if b.delay_finished
      then delegate b
      else (if (poll_delay b.delay).0
          then delegate
              (record { inner = b.inner; delay = (poll_delay b.delay).1; delay_finished = true })
          else (
            pending,
            record { inner = b.inner; delay = (poll_delay b.delay).1; delay_finished = false },
          ))

  unfoldable pub is_end_stream : (B → Bool) → DelayedBody B D → Bool
  is_end_stream inner_is_end_stream b = b.delay_finished && inner_is_end_stream b.inner
