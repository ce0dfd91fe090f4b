-- ===== src/Uring/Tests.antt =====
-- The parameters for some numbers of entries.
use statico.Prelude.{ℕ, ◌^◌, ◌%◌, suc, [], ◌∷◌, none, ◌≡◌, refl, arith}
use statico.Startup.Arguments.{Options, monoio}
use statico.Uring.{
  setup_single_issuer, setup_cqsize, capacity, setup_coop_taskrun, setup_taskrun_flag, power_from,
  next_power_of_two, configure_uring, configure_proactor,
}
use statico.Uring.Sizes.{IsLeastPower, configure_uring-IsLeastPower}
use mathlib.Core.Bool.{false}

abbrev options : ℕ → Options ℕ
options entries = record {
  threads = 1;
  ports = 8080 ∷ [];
  bind_all = false;
  address = none;
  status = 200;
  body = none;
  header = [];
  http2 = false;
  receive_buffer_size = none;
  send_buffer_size = none;
  listen_backlog = none;
  tcp_nodelay = false;
  uring_entries = entries;
  uring_sqpoll = none;
  meter = false;
  verbose = 0;
  delay = none;
  body_delay = none;
  runtime = monoio;
  cert = none;
  key = none;
  mcp_everything = none;
  mcp_sse = none;
}

-- More than 2^30 entries ask for a completion queue without a place.
too_many :
    configure_uring (options 1073741825)
    ≡ setup_single_issuer ∷ (setup_cqsize 0 ∷ (setup_coop_taskrun ∷ (setup_taskrun_flag ∷ [])))
unfolding configure_uring next_power_of_two power_from
too_many = refl

configure_uring-IsLeastPower_example :
    (k : ℕ) × IsLeastPower 5000 k
    × (configure_uring (options 5000)
        ≡ setup_single_issuer
          ∷ (setup_cqsize (2 ^ suc k % 2 ^ 32) ∷ (setup_coop_taskrun ∷ (setup_taskrun_flag ∷ []))))
    × (configure_proactor (options 5000)
        ≡ capacity (2 ^ k % 2 ^ 32) ∷ (setup_coop_taskrun ∷ (setup_taskrun_flag ∷ [])))
configure_uring-IsLeastPower_example =
    configure_uring-IsLeastPower (options 5000) (omega arith) (omega arith)
