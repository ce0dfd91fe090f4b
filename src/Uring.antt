-- ===== src/Uring.antt =====
-- src/uring.rs: the parameters of an io_uring, on Linux, as the settings that a builder is given. The
-- arithmetic is of `u32`, which wraps in the release profile.
pub mod Sizes
mod Tests
use statico.Prelude.{
  ℕ, zero, suc, ◌*◌, ◌%◌, ◌^◌, List, [], ◌∷◌, Option, none, some, leb, if◌then◌else◌,
}
use statico.Startup.Arguments.{Options}

pub data Setting : Type 0 where
  setup_single_issuer setup_coop_taskrun setup_taskrun_flag : Setting
  setup_cqsize setup_sqpoll capacity sqpoll_idle_millis : ℕ → Setting

-- The first of `fuel` powers of two, from `p` on, that is not below `n`; 0 if there is none.
unfoldable pub power_from : ℕ → ℕ → ℕ → ℕ
power_from zero p n = 0
power_from (suc fuel) p n = let next = power_from fuel (p * 2) n in if leb n p then p else next

-- `u32::next_power_of_two`, which wraps to 0
unfoldable pub next_power_of_two : ℕ → ℕ
next_power_of_two n = power_from 32 1 n

-- `configure_uring` of crate io_uring's builder.
unfoldable pub configure_uring : {D : Type 0} → Options D → List Setting
configure_uring opts =
    let num_entries = next_power_of_two opts.uring_entries in
    let cqsize = num_entries * 2 % 2 ^ 32 in
    setup_single_issuer
    ∷ (setup_cqsize cqsize ∷ elim opts.uring_sqpoll [
      | some idle ↦ setup_sqpoll idle ∷ []
      | none ↦ setup_coop_taskrun ∷ (setup_taskrun_flag ∷ [])
    ])

-- `configure_uring` of crate compio's builder.
unfoldable pub configure_proactor : {D : Type 0} → Options D → List Setting
configure_proactor opts =
    let num_entries = next_power_of_two opts.uring_entries in
    capacity num_entries ∷ elim opts.uring_sqpoll [
      | some idle ↦ sqpoll_idle_millis idle ∷ []
      | none ↦ setup_coop_taskrun ∷ (setup_taskrun_flag ∷ [])
    ]
