-- ===== src/Startup/Calls.antt =====
-- The calls of `create_listener`, against a plan of them.
use statico.Prelude.{
  ℕ, Bool, true, false, ◌||◌, List, [], ◌∷◌, ◌++◌, Option, none, some, ◌≡◌, refl, ap, ◌∙◌,
  if◌then◌else◌, Bool-cases, inl, inr,
}
use statico.Startup.{SocketAddr}
use statico.Startup.Arguments.{Options}
use statico.Startup.Listeners.{
  Call, new_socket, set_reuse_address, set_reuse_port, set_tcp_nodelay, set_nonblocking,
  set_recv_buffer_size, set_send_buffer_size, listen, bind, domain, backlog, Attempt, must, may,
  must_set, create_listener,
}

-- The calls for a value of an option.
abbrev pub set_to : (ℕ → Call) → Option ℕ → List Call
set_to f none = []
set_to f (some n) = f n ∷ []

abbrev pub flag : Call → Bool → List Call
flag c b = if b then c ∷ [] else []

-- All calls, when none fails: every option is set before the socket is bound.
abbrev pub planned : {D : Type 0} → SocketAddr → Options D → List Call
planned addr opts =
    new_socket (domain addr)
    ∷ (set_reuse_address
        ∷ (set_reuse_port
            ∷ (flag set_tcp_nodelay opts.tcp_nodelay
                ++ (set_to set_recv_buffer_size opts.receive_buffer_size
                    ++ (set_to set_send_buffer_size opts.send_buffer_size
                        ++ (bind addr
                            ∷ (listen (backlog opts.listen_backlog) ∷ (set_nonblocking ∷ []))))))))

abbrev pub tolerated : Call → Bool
tolerated set_reuse_port = true
tolerated _ = false

module _ (succeeds : Call → Bool) where
  -- A plan is carried out up to its first failed call that is not tolerated.
  abbrev pub carried_out : List Call → Attempt
  carried_out [] = ([], none)
  carried_out (c ∷ calls) =
      let rest = carried_out calls in
      if succeeds c || tolerated c then (c ∷ rest.0, rest.1) else (c ∷ [], some c)

  must-carried_out :
      (c : Call) (calls : List Call)
      → tolerated c ≡ false
      → must succeeds c (carried_out calls) ≡ carried_out (c ∷ calls)
  must-carried_out c calls t = elim (Bool-cases (succeeds c)) [
    | inl y ↦ rw (must, carried_out, y) refl
    | inr n ↦ rw (must, carried_out, n, t) refl
  ]

  may-carried_out :
      (calls : List Call)
      → may succeeds set_reuse_port (carried_out calls) ≡ carried_out (set_reuse_port ∷ calls)
  may-carried_out calls = elim (Bool-cases (succeeds set_reuse_port)) [
    | inl y ↦ rw (carried_out, y) refl
    | inr n ↦ rw (carried_out, n) refl
  ]

  must_set-carried_out :
      (f : ℕ → Call) (o : Option ℕ) (calls : List Call)
      → ((n : ℕ) → tolerated (f n) ≡ false)
      → must_set succeeds f o (carried_out calls) ≡ carried_out (set_to f o ++ calls)
  must_set-carried_out f none calls t = refl
  must_set-carried_out f (some n) calls t = must-carried_out (f n) calls (t n)

  flag-carried_out :
      (b : Bool) (calls : List Call)
      → (if b then must succeeds set_tcp_nodelay (carried_out calls) else carried_out calls)
        ≡ carried_out (flag set_tcp_nodelay b ++ calls)
  flag-carried_out true calls = must-carried_out set_tcp_nodelay calls refl
  flag-carried_out false calls = refl

  -- Whichever calls succeed, for every address and all options: the calls that are made and the error
  -- are those of the plan, in which every option is set before the socket is bound, and it is bound
  -- before it listens, carried out up to its first failed call other than the one for SO_REUSEPORT.
  pub create_listener-carried_out :
      {D : Type 0} (addr : SocketAddr) (opts : Options D)
      → create_listener succeeds addr opts ≡ carried_out (planned addr opts)
  unfolding create_listener
  create_listener-carried_out addr opts =
      let last = listen (backlog opts.listen_backlog) ∷ (set_nonblocking ∷ []) in
      let sends = set_to set_send_buffer_size opts.send_buffer_size ++ (bind addr ∷ last) in
      let receives = set_to set_recv_buffer_size opts.receive_buffer_size ++ sends in
      let flagged = flag set_tcp_nodelay opts.tcp_nodelay ++ receives in
      let nonblocking = must-carried_out set_nonblocking [] refl in
      let listens =
        ap (must succeeds (listen (backlog opts.listen_backlog))) nonblocking
        ∙ must-carried_out (listen (backlog opts.listen_backlog)) (set_nonblocking ∷ []) refl in
      let binds = ap (must succeeds (bind addr)) listens ∙ must-carried_out (bind addr) last refl in
      let sent =
        ap (must_set succeeds set_send_buffer_size opts.send_buffer_size) binds
        ∙ must_set-carried_out set_send_buffer_size opts.send_buffer_size (bind addr ∷ last)
            (λ n. refl) in
      let received =
        ap (must_set succeeds set_recv_buffer_size opts.receive_buffer_size) sent
        ∙ must_set-carried_out set_recv_buffer_size opts.receive_buffer_size sends (λ n. refl) in
      let nodelay =
        ap
          (λ (rest : Attempt).
            if opts.tcp_nodelay then must succeeds set_tcp_nodelay rest else rest)
          received
        ∙ flag-carried_out opts.tcp_nodelay receives in
      let reused = ap (may succeeds set_reuse_port) nodelay ∙ may-carried_out flagged in
      let opened =
        ap (must succeeds set_reuse_address) reused
        ∙ must-carried_out set_reuse_address (set_reuse_port ∷ flagged) refl in
      ap (must succeeds (new_socket (domain addr))) opened
      ∙ must-carried_out (new_socket (domain addr)) (set_reuse_address ∷ (set_reuse_port ∷ flagged))
          refl
