-- ===== src/Startup/Accepted.antt =====
-- Which options `main` accepts, and which addresses its threads then listen to.
use statico.Prelude.{
  ℕ, Bool, true, false, not, ◌&&◌, List, [], ◌∷◌, Option, none, some, ◌⊎◌, inl, inr, ◌≡◌, refl, sym,
  ap, ◌∙◌, subst, Bytes, codes, starts_with, arith, if◌then◌else◌, Option-cases, Bool-cases,
}
use mathlib.Core.Option.{some-injective}
use statico.Ports.{balance_ports}
use statico.Startup.{
  IpAddr, SocketAddr, StartError, Started, Server, mcp_server, runtime_server, relative_endpoint,
  mcp_needs_tokio, invalid_status, is_some, is_tokio, and_then, require, Check, listen_addrs,
  load_body_content, load_tls, check_sse, check_mcp, check_http2, configure, start, run_thread,
}
use statico.Startup.Headers.{Text, parse_headers}
use statico.Startup.Arguments.{Options, Runtime, tokio, tokio_uring, monoio, glommio, smol, compio}

-- The server that runs can do what the options ask for: the mock has an absolute endpoint and runs on
-- tokio, streamed answers are asked of the mock only, and HTTP/2 of the servers on tokio only.
pub data IsServed {D : Type 0} (opts : Options D) : Server → Type 0 where
  served_mcp :
      {rest : Text}
      → opts.mcp_everything ≡ some (b'/' ∷ rest)
      → opts.runtime ≡ tokio
      → IsServed opts mcp_server
  served_tokio :
      opts.mcp_everything ≡ none
      → opts.mcp_sse ≡ none
      → opts.runtime ≡ tokio
      → IsServed opts (runtime_server tokio)
  served_other :
      opts.mcp_everything ≡ none
      → opts.mcp_sse ≡ none
      → is_tokio opts.runtime ≡ false
      → opts.http2 ≡ false
      → IsServed opts (runtime_server opts.runtime)

-- The chain of the seven steps, any of which can fail.
abbrev pub chained :
    {E A B C R : Type 0}
    → E ⊎ A
    → E ⊎ B
    → Check E
    → E ⊎ C
    → Check E
    → Check E
    → Check E
    → (A → B → C → R)
    → E ⊎ R
chained addrs body status tls sse mock http2 f = and_then addrs (λ a. and_then body (λ b.
    and_then status (λ u.
      and_then tls
        (λ c. and_then sse (λ u. and_then mock (λ u. and_then http2 (λ u. inr (f a b c))))))))

-- A chain that succeeded has passed its checks.
chained-inr :
    {E A B C R : Type 0}
    → (addrs : E ⊎ A) (body : E ⊎ B) (status : Check E) (tls : E ⊎ C) (sse mock http2 : Check E)
      (f : A → B → C → R) (r : R)
    → chained addrs body status tls sse mock http2 f ≡ inr r
    → (sse ≡ inr tt) × (mock ≡ inr tt) × (http2 ≡ inr tt)
chained-inr (inl e) body status tls sse mock http2 f r h = absurd (ground arith)
chained-inr (inr a) (inl e) status tls sse mock http2 f r h = absurd (ground arith)
chained-inr (inr a) (inr b) (inl e) tls sse mock http2 f r h = absurd (ground arith)
chained-inr (inr a) (inr b) (inr u) (inl e) sse mock http2 f r h = absurd (ground arith)
chained-inr (inr a) (inr b) (inr u) (inr c) (inl e) mock http2 f r h = absurd (ground arith)
chained-inr (inr a) (inr b) (inr u) (inr c) (inr v) (inl e) http2 f r h = absurd (ground arith)
chained-inr (inr a) (inr b) (inr u) (inr c) (inr v) (inr w) (inl e) f r h = absurd (ground arith)
chained-inr (inr a) (inr b) (inr u) (inr c) (inr v) (inr w) (inr x) f r h = (refl, refl, refl)

require-inr : {E : Type 0} (b : Bool) (e : E) (u : Unit {0}) → require b e ≡ inr u → b ≡ true
require-inr true e u h = refl
require-inr false e u h = absurd (ground arith)

both-inr :
    {E : Type 0} (b c : Bool) (e f : E) (u : Unit {0})
    → and_then (require b e) (λ v. require c f) ≡ inr u
    → (b ≡ true) × (c ≡ true)
both-inr true true e f u h = (refl, refl)
both-inr true false e f u h = absurd (ground arith)
both-inr false c e f u h = absurd (ground arith)

is_tokio_lem : (r : Runtime) → is_tokio r ≡ true → r ≡ tokio
is_tokio_lem tokio h = refl
is_tokio_lem tokio_uring h = absurd (ground arith)
is_tokio_lem monoio h = absurd (ground arith)
is_tokio_lem glommio h = absurd (ground arith)
is_tokio_lem smol h = absurd (ground arith)
is_tokio_lem compio h = absurd (ground arith)

slash_lem : (ep : Text) → starts_with (codes "/") ep ≡ true → (rest : Text) × (ep ≡ b'/' ∷ rest)
unfolding starts_with
slash_lem [] h = absurd (ground arith)
slash_lem (c ∷ ep) h = let same : c ≡ b'/' = ground arith in (ep, λ i. same i ∷ ep)

abbrev run_thread_of : Option Text → Runtime → Server
run_thread_of everything runtime = if is_some everything then mcp_server else runtime_server runtime

module _ {E D : Type 0} where
  mock_lem :
      (opts : Options D) (u : Unit {0})
      → check_mcp {E = E} opts ≡ inr u
      → (opts.mcp_everything ≡ none)
        ⊎ ((rest : Text) × (opts.mcp_everything ≡ some (b'/' ∷ rest)) × (opts.runtime ≡ tokio))
  unfolding check_mcp
  mock_lem opts u h = elim (Option-cases opts.mcp_everything) [
    | inl e ↦ inl e
    | inr (ep, e) ↦
        let checked =
          subst
            (λ (o : Option Text).
              elim o as (λ (x : Option Text). Check (StartError E)) [
                | none ↦ inr tt
                | some ep ↦
                    and_then (require (starts_with (codes "/") ep) relative_endpoint)
                      (λ u. require (is_tokio opts.runtime) mcp_needs_tokio)
              ]
              ≡ inr u)
            e h in
        let both =
          both-inr (starts_with (codes "/") ep) (is_tokio opts.runtime) relative_endpoint
            mcp_needs_tokio u checked in
        let absolute = slash_lem ep both.0 in
        inr (absolute.0, e ∙ ap some absolute.1, is_tokio_lem opts.runtime both.1)
  ]

  no_stream :
      (opts : Options D) (u : Unit {0})
      → check_sse {E = E} opts ≡ inr u
      → opts.mcp_everything ≡ none
      → opts.mcp_sse ≡ none
  unfolding check_sse
  no_stream opts u h e = elim (Option-cases opts.mcp_sse) [
    | inl n ↦ n
    | inr (k, n) ↦
        (let no : false ≡ true =
            sym (λ i. not (is_some (n i) && not (is_some (e i)))) ∙ require-inr _ _ u h in
          absurd (ground arith))
  ]

  no_http2 :
      (opts : Options D) (u : Unit {0})
      → check_http2 {E = E} opts ≡ inr u
      → is_tokio opts.runtime ≡ false
      → opts.http2 ≡ false
  unfolding check_http2
  no_http2 opts u h n = elim (Bool-cases opts.http2) [
    | inr f ↦ f
    | inl y ↦
        (let no : false ≡ true = sym (λ i. not (not (n i) && y i)) ∙ require-inr _ _ u h in
          absurd (ground arith))
  ]

  served_lem :
      (opts : Options D) (u v w : Unit {0})
      → check_sse {E = E} opts ≡ inr u
      → check_mcp {E = E} opts ≡ inr v
      → check_http2 {E = E} opts ≡ inr w
      → IsServed opts (run_thread opts)
  unfolding run_thread
  served_lem opts u v w sse mock http2 = elim (mock_lem opts v mock) [
    | inr (rest, e, t) ↦
        subst (IsServed opts) (sym (λ i. run_thread_of (e i) opts.runtime)) (served_mcp e t)
    | inl e ↦ elim (Bool-cases (is_tokio opts.runtime)) [
      | inl y ↦
          let t = is_tokio_lem opts.runtime y in
          subst (IsServed opts) (sym (λ i. run_thread_of (e i) (t i)))
            (served_tokio e (no_stream opts u sse e) t)
      | inr n ↦
          subst (IsServed opts) (sym (λ i. run_thread_of (e i) opts.runtime))
            (served_other e (no_stream opts u sse e) n (no_http2 opts w http2 n))
    ]
  ]

  module _ {T : Type 0} (parse_ip : Text → Option IpAddr) (read_file : Text → Option Bytes)
      (is_status : ℕ → Bool) (load_server_config : Text → Text → Bool → E ⊎ T) where
    abbrev pub assembled : Options D → List (List SocketAddr) → Bytes → Option T → Started T
    assembled opts addrs body_content tls = record {
      addrs = addrs;
      config = record {
        status = opts.status;
        body = body_content;
        headers = parse_headers opts.header;
        tls = tls;
      };
    }

    abbrev pub started_of : Options D → Option (List (List ℕ)) → Option (StartError E ⊎ Started T)
    started_of opts shared = elim shared [
      | none ↦ none
      | some chunks ↦ some (configure parse_ip read_file is_status load_server_config opts chunks)
    ]

    -- Options that are accepted are served: the mock of MCP has an endpoint that begins with a slash
    -- and runs on tokio, streamed answers are asked of the mock only, and HTTP/2 of the servers on
    -- tokio only.
    pub start-IsServed :
        (opts : Options D) (started : Started T)
        → start parse_ip read_file is_status load_server_config opts ≡ some (inr started)
        → IsServed opts (run_thread opts)
    unfolding start configure
    start-IsServed opts started h =
        elim (Option-cases (balance_ports opts.ports opts.threads opts.bind_all)) [
          | inl e ↦
              (let no : none ≡ some (inr started) = sym (ap (started_of opts) e) ∙ h in
                absurd (ground arith))
          | inr (chunks, e) ↦
              let configured : configure parse_ip read_file is_status load_server_config opts chunks
                  ≡ inr started =
                some-injective _ _ (sym (ap (started_of opts) e) ∙ h) in
              let checks =
                chained-inr (listen_addrs parse_ip opts.address chunks)
                  (load_body_content read_file opts.body)
                  (require (is_status opts.status) invalid_status)
                  (load_tls load_server_config opts.cert opts.key opts.http2) (check_sse opts)
                  (check_mcp opts) (check_http2 opts) (assembled opts) started configured in
              served_lem opts tt tt tt checks.0 checks.1 checks.2
        ]
