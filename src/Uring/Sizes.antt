-- ===== src/Uring/Sizes.antt =====
-- The sizes of the two queues of an io_uring.
use statico.Prelude.{
  ℕ, zero, suc, ◌+◌, ◌*◌, ◌%◌, ◌^◌, ◌≤◌, ◌<◌, [], ◌∷◌, none, some, ◌≡◌, ap, ◌∙◌, sym, leb,
  Bool-cases, inl, inr, arith,
}
use native.Mathlib.Nat.{pow-suc, pow-zero, pow-le-pow_right}
use statico.Startup.Arguments.{Options}
use statico.Uring.{
  setup_cqsize, capacity, setup_single_issuer, setup_coop_taskrun, setup_taskrun_flag, setup_sqpoll,
  sqpoll_idle_millis, power_from, next_power_of_two, configure_uring, configure_proactor,
}

-- The least power of two that is not below `n`.
abbrev pub IsLeastPower : ℕ → ℕ → Type 0
IsLeastPower n k = (n ≤ 2 ^ k) × (2 ^ k < 2 * n)

power_from-IsLeastPower :
    (fuel j n : ℕ)
    → fuel + j ≡ 32
    → 2 ^ j < 2 * n
    → n < 2 ^ 32
    → (k : ℕ) × IsLeastPower n k × (power_from fuel (2 ^ j) n ≡ 2 ^ k % 2 ^ 32)
unfolding power_from
power_from-IsLeastPower zero j n f low h =
    let top : 2 ^ j ≡ 2 ^ 32 = ap (λ (t : ℕ). 2 ^ t) {x = j} {y = 32} (omega arith) in
    (32, (omega arith, omega (arith, top)), omega arith)
power_from-IsLeastPower (suc fuel) j n f low h = elim (Bool-cases (leb n (2 ^ j))) [
  | inl y ↦
      let small : 2 ^ j ≤ 2 ^ 31 =
        pow-le-pow_right {n = 2} (omega arith) {i = j} {j = 31} (omega arith) in
      (j, (ground arith, low), rw (power_from, y) (omega arith))
  | inr m ↦
      let rec =
        power_from-IsLeastPower fuel (suc j) n (omega arith) (ground (arith, pow-suc 2 j)) h in
      (
        rec.0,
        rec.1,
        rw (power_from, m) (ap (λ (p : ℕ). power_from fuel p n) (sym (pow-suc 2 j)) ∙ rec.2),
      )
]

-- For a number of entries from 1 up to the largest `u32`, with the least power of two that is not
-- below it: that power is the capacity that compio's builder is given, and twice the power is the
-- completion queue of io_uring's, both modulo 2^32. The other settings do not depend on it.
pub configure_uring-IsLeastPower :
    {D : Type 0} (opts : Options D)
    → 1 ≤ opts.uring_entries
    → opts.uring_entries < 2 ^ 32
    → (k : ℕ) × IsLeastPower opts.uring_entries k
      × (configure_uring opts
          ≡ setup_single_issuer
            ∷ (setup_cqsize (2 ^ suc k % 2 ^ 32) ∷ elim opts.uring_sqpoll [
              | some idle ↦ setup_sqpoll idle ∷ []
              | none ↦ setup_coop_taskrun ∷ (setup_taskrun_flag ∷ [])
            ]))
      × (configure_proactor opts
          ≡ capacity (2 ^ k % 2 ^ 32) ∷ elim opts.uring_sqpoll [
            | some idle ↦ sqpoll_idle_millis idle ∷ []
            | none ↦ setup_coop_taskrun ∷ (setup_taskrun_flag ∷ [])
          ])
unfolding configure_uring configure_proactor next_power_of_two
configure_uring-IsLeastPower opts p h =
    let found =
      power_from-IsLeastPower 32 0 opts.uring_entries (omega arith) (omega (arith, pow-zero 2)) h in
    let size : power_from 32 1 opts.uring_entries ≡ 2 ^ found.0 % 2 ^ 32 =
      ap (λ (q : ℕ). power_from 32 q opts.uring_entries) (sym (pow-zero 2)) ∙ found.2 in
    let double : power_from 32 1 opts.uring_entries * 2 % 2 ^ 32 ≡ 2 ^ suc found.0 % 2 ^ 32 =
      omega (arith, size, pow-suc 2 found.0) in
    (
      found.0,
      found.1,
      (λ i.
          setup_single_issuer
          ∷ (setup_cqsize (double i) ∷ elim opts.uring_sqpoll [
            | some idle ↦ setup_sqpoll idle ∷ []
            | none ↦ setup_coop_taskrun ∷ (setup_taskrun_flag ∷ [])
          ])),
      (λ i. capacity (size i) ∷ elim opts.uring_sqpoll [
        | some idle ↦ sqpoll_idle_millis idle ∷ []
        | none ↦ setup_coop_taskrun ∷ (setup_taskrun_flag ∷ [])
      ]),
    )
