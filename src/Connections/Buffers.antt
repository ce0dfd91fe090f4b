-- ===== src/Connections/Buffers.antt =====
-- The buffer of the connection loop: resetting, compacting and reading.
use statico.Prelude.{
  ℕ, ◌^◌, ◌≤◌, ◌<◌, ◌&&◌, ◌++◌, ◌≡◌, refl, sym, ap, ◌∙◌, Bytes, length, drop, length-append,
  drop_append, drop_all, arith, ltb, ◌==◌, Bool-cases, inl, inr,
}
use statico.Connections.{Connection, reset_or_compact, receive}

-- What is in the buffer and not yet parsed.
abbrev pub pending : Connection → Bytes
pending c = drop c.parsed c.buf

pub record IsKept (c : Connection) : Type 0 where
  pub inside : c.parsed ≤ length c.buf
  pub counted : c.requests_served < 2 ^ 64

pub record SameProgress (c d : Connection) : Type 0 where
  pub same_pending : pending d ≡ pending c
  pub same_served : d.requests_served ≡ c.requests_served
  pub same_events : d.events ≡ c.events
  pub kept : IsKept d

-- Resetting and compacting the buffer change nothing that the loop still needs.
pub reset_or_compact-SameProgress :
    (c : Connection) → IsKept c → SameProgress c (reset_or_compact c)
unfolding reset_or_compact
reset_or_compact-SameProgress c k = elim (Bool-cases (c.parsed == length c.buf && ltb 0 c.parsed)) [
  | inl y ↦
      let all_parsed : c.parsed ≡ length c.buf = ground arith in
      rw y record {
        same_pending = sym (ap (λ (n : ℕ). drop n c.buf) all_parsed ∙ drop_all c.buf);
        same_served = refl;
        same_events = refl;
        kept = record { inside = omega arith; counted = k.counted };
      }
  | inr m ↦ rw m (elim (Bool-cases (ltb 4096 c.parsed)) [
    | inl y ↦ rw y record {
      same_pending = refl;
      same_served = refl;
      same_events = refl;
      kept = record { inside = omega arith; counted = k.counted };
    }
    | inr n ↦ rw n record { same_pending = refl; same_served = refl; same_events = refl; kept = k }
  ])
]

pub receive-pending :
    (c : Connection) (b : Bytes) → IsKept c → pending (receive c b) ≡ pending c ++ b
unfolding receive
receive-pending c b k = drop_append c.parsed c.buf b k.inside

pub receive-IsKept : (c : Connection) (b : Bytes) → IsKept c → IsKept (receive c b)
unfolding receive
receive-IsKept c b k = record {
  inside = omega (arith, k.inside, length-append c.buf b);
  counted = k.counted;
}

pub receive-same :
    (c : Connection) (b : Bytes)
    → ((receive c b).requests_served ≡ c.requests_served) × ((receive c b).events ≡ c.events)
unfolding receive
receive-same c b = (refl, refl)
