-- ===== src/Connections/Counted/Interleaved.antt =====
-- The counters, however the reports of the connections are interleaved.
use statico.Prelude.{
  ℕ, ◌+◌, ◌≤◌, Bool, true, List, [], ◌∷◌, ◌++◌, map, concat, Option, some, ◌≡◌, refl, sym, ap, ◌∙◌,
  subst, Bytes, length, All, arith,
}
use statico.Http.{Headers}
use statico.Config.{ServerConfig}
use statico.Counters.{
  finds_counters, is_key, Counters, Report, default, init_port_counters, record_all, port_of,
}
use statico.Counters.Keys.{is_elem, or_false, is_key-init_port_counters}
use statico.Counters.Totals.{
  Field, requests, request_bytes, responses, response_bytes, read, sum, raised,
  record_all-IsBalanced,
}
use statico.Connections.{Outcome, Connection, closed, Settings, build_response}
use statico.Connections.Requests
use statico.Connections.Splits.{exchanges}
use statico.Connections.Handlers.{handle_connection-requests}
use statico.Connections.Counted.Exchanges.{pairs, amounts, pairs-All, reports_of-exchanges}
use statico.Connections.Counted.{
  reports_of, reports_from, Ring, tokio_uring_ring, monoio_ring, glommio_ring, compio_ring, Client,
  handle_connection, client_reports,
}

-- The third list has the elements of the first two, each list's in its own order.
pub data Merge {A : Type 0} : List A → List A → List A → Type 0 where
  none_left : Merge [] [] []
  from_first : {x : A} {xs ys zs : List A} → Merge xs ys zs → Merge (x ∷ xs) ys (x ∷ zs)
  from_second : {y : A} {xs ys zs : List A} → Merge xs ys zs → Merge xs (y ∷ ys) (y ∷ zs)

-- The list has the elements of all the lists, each list's in its own order.
abbrev pub Interleaves : {A : Type 0} → List (List A) → List A → Type 0
Interleaves [] zs = zs ≡ []
Interleaves (xs ∷ xss) zs = (ys : List _) × Interleaves xss ys × Merge xs ys zs

Merge-All :
    {A : Type 0} (P : A → Type 0) {xs ys zs : List A}
    → Merge xs ys zs
    → All P xs
    → All P ys
    → All P zs
Merge-All P none_left p q = tt
Merge-All P (from_first m) p q = (p.0, Merge-All P m p.1 q)
Merge-All P (from_second m) p q = (q.0, Merge-All P m p q.1)

module _ {M : Type 0} (fresh : M) (add : M → ℕ → M) (value : M → ℕ) (value-fresh : value fresh ≡ 0)
    (value-add : (m : M) (n : ℕ) → value (add m n) ≡ value m + n) where
  abbrev raises : List Report → Field → ℕ
  raises reports field = raised fresh add value value-fresh value-add reports field

  raised-Merge :
      (field : Field) {xs ys zs : List Report}
      → Merge xs ys zs
      → raises zs field ≡ raises xs field + raises ys field
  raised-Merge field none_left = omega arith
  raised-Merge field (from_first m) = omega (arith, raised-Merge field m)
  raised-Merge field (from_second m) = omega (arith, raised-Merge field m)

  raised-pairs :
      (port answer_len : ℕ) (field : Field) (lens : List ℕ)
      → raises (pairs port answer_len lens) field ≡ amounts answer_len field lens
  raised-pairs port answer_len requests [] = refl
  raised-pairs port answer_len request_bytes [] = refl
  raised-pairs port answer_len responses [] = refl
  raised-pairs port answer_len response_bytes [] = refl
  raised-pairs port answer_len requests (n ∷ lens) =
      omega (arith, raised-pairs port answer_len requests lens)
  raised-pairs port answer_len request_bytes (n ∷ lens) =
      omega (arith, raised-pairs port answer_len request_bytes lens)
  raised-pairs port answer_len responses (n ∷ lens) =
      omega (arith, raised-pairs port answer_len responses lens)
  raised-pairs port answer_len response_bytes (n ∷ lens) =
      omega (arith, raised-pairs port answer_len response_bytes lens)

  module _ {T : Type 0} (decode : Bytes → Option ℕ) (encode : ℕ → Headers → Bytes → Option Bytes)
      (settings : Settings) (config : ServerConfig T) (write_succeeds : ℕ → Bool)
      (decode-bounds : (s : Bytes) (n : ℕ) → decode s ≡ some n → (1 ≤ n) × (n ≤ length s))
      (decode-stable : (s t : Bytes) (n : ℕ) → decode s ≡ some n → decode (s ++ t) ≡ some n)
      (writes-succeed : (k : ℕ) → write_succeeds k ≡ true) (answer : Bytes)
      (built : build_response encode config ≡ some answer) (metered : settings.meter ≡ true)
      (ports : List ℕ) where
    -- The ports whose counters were set up.
    abbrev pub registered : ℕ → Bool
    registered port = is_key fresh add port (init_port_counters fresh add ports [])

    abbrev reports_by : Client → List Report
    reports_by client =
        client_reports decode encode settings config write_succeeds registered client

    -- The lengths of the requests of a client.
    abbrev pub lengths : Client → List ℕ
    lengths client = Requests.requests decode (concat client.chunks)

    found_lem :
        (port : ℕ)
        → is_elem port ports ≡ true
        → finds_counters settings.meter registered port ≡ true
    found_lem port e =
        ap (λ m. finds_counters m registered port) metered
        ∙ (is_key-init_port_counters fresh add port ports [] ∙ (or_false (is_elem port ports) ∙ e))

    abbrev handled : Ring → ℕ → List Bytes → Outcome
    handled ring port chunks =
        handle_connection decode encode settings config write_succeeds registered ring port
          (map some chunks ++ (some [] ∷ []))

    one_of :
        (ring : Ring) (port : ℕ) (chunks : List Bytes) (d : Connection)
        → handled tokio_uring_ring port chunks ≡ closed d
        → handled monoio_ring port chunks ≡ closed d
        → handled glommio_ring port chunks ≡ closed d
        → handled compio_ring port chunks ≡ closed d
        → handled ring port chunks ≡ closed d
    one_of tokio_uring_ring port chunks d p q r t = p
    one_of monoio_ring port chunks d p q r t = q
    one_of glommio_ring port chunks d p q r t = r
    one_of compio_ring port chunks d p q r t = t

    ring_lem :
        (ring : Ring) (port : ℕ) (chunks : List Bytes)
        → is_elem port ports ≡ true
        → All (λ b. 1 ≤ length b) chunks
        → (d : Connection) × (handled ring port chunks ≡ closed d)
          × (d.events ≡ exchanges decode settings answer (Requests.requests decode (concat chunks)))
    ring_lem ring port chunks e all =
        let h =
          handle_connection-requests decode encode settings config write_succeeds decode-bounds
            decode-stable writes-succeed registered port answer chunks (found_lem port e) built
            all in
        (h.0, one_of ring port chunks h.0 h.1 h.2 h.3 h.4, h.6)

    reports_by_lem :
        (client : Client)
        → is_elem client.port ports ≡ true
        → All (λ b. 1 ≤ length b) client.chunks
        → reports_by client ≡ pairs client.port (length answer) (lengths client)
    reports_by_lem client e all =
        let h = ring_lem client.ring client.port client.chunks e all in
        ap (reports_from client.port) h.1
        ∙ (ap (reports_of client.port) h.2
            ∙ reports_of-exchanges decode settings answer metered client.port (lengths client))

    -- What the clients' requests add to a counter, one client after the other.
    abbrev pub clients_total : Field → List Client → ℕ
    clients_total field [] = 0
    clients_total field (client ∷ clients) =
        amounts (length answer) field (lengths client) + clients_total field clients

    -- The client connects to one of the ports, and no read is empty.
    abbrev pub IsServed : Client → Type 0
    IsServed client = (is_elem client.port ports ≡ true) × All (λ b. 1 ≤ length b) client.chunks

    interleaved_lem :
        (clients : List Client) (reports : List Report)
        → All IsServed clients
        → Interleaves (map reports_by clients) reports
        → All (λ r. is_elem (port_of fresh add r) ports ≡ true) reports
          × ((field : Field) → raises reports field ≡ clients_total field clients)
    interleaved_lem [] reports all inter =
        subst
          (λ rs.
            All (λ r. is_elem (port_of fresh add r) ports ≡ true) rs
            × ((field : Field) → raises rs field ≡ 0))
          (sym inter) (tt, λ field. refl)
    interleaved_lem (client ∷ clients) reports all (ys, inter, merge) =
        let same = reports_by_lem client all.0.0 all.0.1 in
        let rest = interleaved_lem clients ys all.1 inter in
        (
          Merge-All (λ r. is_elem (port_of fresh add r) ports ≡ true) merge
              (subst (All (λ r. is_elem (port_of fresh add r) ports ≡ true)) (sym same)
                (pairs-All ports client.port (length answer) (lengths client) all.0.0))
              rest.0,
          λ field.
              raised-Merge field merge
              ∙ omega (
                arith,
                ap (λ rs. raises rs field) same,
                raised-pairs client.port (length answer) field (lengths client),
                rest.1 field,
              ),
        )

    -- Let the counters start at 0 and add exactly, the parser find requests of at least one byte and
    -- within its input, its answer not change with more bytes, the response be built, every write
    -- succeed and the counters be asked for. Let clients connect over any of the four io_uring runtimes to ports that
    -- were set up, each stream read in any non-empty pieces and ended. However the reports of their connections are interleaved, all are
    -- recorded; then each static counter holds exactly what the requests that the streams hold and
    -- their responses add up to, and is the sum over the ports.
    pub record_all-Interleaves :
        (clients : List Client) (reports : List Report)
        → All IsServed clients
        → Interleaves (map reports_by clients) reports
        → (t : Counters M) × (record_all fresh add reports (record {
          total = default fresh add;
          by_port = init_port_counters fresh add ports [];
        })
            ≡ some t)
          × ((field : Field) → read fresh add value field t.total ≡ clients_total field clients)
          × ((field : Field)
              → read fresh add value field t.total ≡ sum fresh add value field t.by_port)
    record_all-Interleaves clients reports all inter =
        let both = interleaved_lem clients reports all inter in
        let t = record_all-IsBalanced fresh add value value-fresh value-add ports reports both.0 in
        (t.0, t.1, λ field. t.3 field ∙ both.1 field, t.2)
