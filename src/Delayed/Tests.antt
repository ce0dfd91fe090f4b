-- ===== src/Delayed/Tests.antt =====
-- A run of a delayed body.
use statico.Prelude.{ℕ, ◌+◌, ◌-◌, ◌==◌, Bool, ◌++◌, ◌≡◌, refl}
use statico.Delayed.{new}
use statico.Delayed.Waiting.{polls, pendings, inner_polls, polls-new}

-- A body that counts its polls from 7, and a timer that counts down.
abbrev count : ℕ → ℕ × ℕ
count n = (n, n + 1)

abbrev timer : ℕ → Bool × ℕ
timer n = (n == 0, n - 1)

polls-new_example :
    polls 0 count timer (2 + 2) (new 7 2)
    ≡ pendings 0 count timer 2 ++ inner_polls 0 count timer 2 7
polls-new_example = polls-new 0 count timer 2 1 7 2 (refl, (refl, refl))
