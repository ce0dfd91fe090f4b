-- ===== src/Counters/Totals.antt =====
-- The static counters of src/main.rs and the sums over the ports.
use statico.Prelude.{
  ℕ, ◌+◌, Bool, true, ◌||◌, List, [], ◌∷◌, Option, some, ◌≡◌, refl, sym, ap, ◌∙◌, ◌==◌, All, arith,
  Bool-cases, inl, inr,
}
use statico.Counters.{
  PortCounters, Counters, Report, request, response, default, is_key, init_port_counters,
  port_counters, change_of, port_of, record_report, record_all,
}
use statico.Counters.Keys.{is_elem, or_false, is_key-init_port_counters}

pub data Field : Type 0 where
  requests request_bytes responses response_bytes : Field

module _ {M : Type 0} (fresh : M) (add : M → ℕ → M) (value : M → ℕ) where
  abbrev pub read : Field → PortCounters M → ℕ
  read requests c = value c.requests
  read request_bytes c = value c.request_bytes
  read responses c = value c.responses
  read response_bytes c = value c.response_bytes

  abbrev pub sum : Field → List (ℕ × PortCounters M) → ℕ
  sum field [] = 0
  sum field ((p, c) ∷ map) = read field c + sum field map

  -- By how much a report raises a counter.
  abbrev raise : Report → Field → ℕ
  raise (request port bytes) requests = 1
  raise (request port bytes) request_bytes = bytes
  raise (response port bytes) responses = 1
  raise (response port bytes) response_bytes = bytes
  raise _ _ = 0

  abbrev pub IsBalanced : Counters M → Type 0
  IsBalanced s = (field : Field) → read field s.total ≡ sum field s.by_port

  module _ (value-fresh : value fresh ≡ 0)
      (value-add : (m : M) (n : ℕ) → value (add m n) ≡ value m + n) where
    read-change_of :
        (report : Report) (field : Field) (c : PortCounters M)
        → read field (change_of fresh add report c) ≡ read field c + raise report field
    read-change_of (request port bytes) requests c = value-add c.requests 1
    read-change_of (request port bytes) request_bytes c = value-add c.request_bytes bytes
    read-change_of (request port bytes) responses c = omega arith
    read-change_of (request port bytes) response_bytes c = omega arith
    read-change_of (response port bytes) requests c = omega arith
    read-change_of (response port bytes) request_bytes c = omega arith
    read-change_of (response port bytes) responses c = value-add c.responses 1
    read-change_of (response port bytes) response_bytes c = value-add c.response_bytes bytes

    -- The map after a report on one of its ports: each sum is raised like one counter.
    abbrev Raises : Report → List (ℕ × PortCounters M) → Option (List (ℕ × PortCounters M)) → Type 0
    Raises report map result =
        (changed : List (ℕ × PortCounters M)) × (result ≡ some changed)
        × ((field : Field) → sum field changed ≡ sum field map + raise report field)
        × ((port : ℕ) → is_key fresh add port changed ≡ is_key fresh add port map)

    port_counters-Raises :
        (report : Report) (map : List (ℕ × PortCounters M))
        → is_key fresh add (port_of fresh add report) map ≡ true
        → Raises report map
            (port_counters fresh add (port_of fresh add report) (change_of fresh add report) map)
    unfolding port_counters
    port_counters-Raises report [] h = absurd (ground arith)
    port_counters-Raises report ((p, c) ∷ map) h =
        elim (Bool-cases (port_of fresh add report == p)) [
          | inl y ↦
              rw (port_counters, y)
                (
                  (p, change_of fresh add report c) ∷ map,
                  refl,
                  λ field. omega (arith, read-change_of report field c),
                  λ port. refl,
                )
          | inr n ↦
              let there : is_key fresh add (port_of fresh add report) map ≡ true =
                ap (λ (b : Bool). b || is_key fresh add (port_of fresh add report) map) (sym n)
                ∙ h in
              let rest = port_counters-Raises report map there in
              rw (port_counters, n, rest.1)
                (
                  (p, c) ∷ rest.0,
                  refl,
                  λ field. omega (arith, rest.2 field),
                  λ port. ap (λ (b : Bool). port == p || b) (rest.3 port),
                )
        ]

    read-default : (field : Field) → read field (default fresh add) ≡ 0
    read-default requests = value-fresh
    read-default request_bytes = value-fresh
    read-default responses = value-fresh
    read-default response_bytes = value-fresh

    -- What all reports together raise a counter by.
    abbrev pub raised : List Report → Field → ℕ
    raised [] field = 0
    raised (report ∷ reports) field = raise report field + raised reports field

    abbrev Records : List Report → Counters M → Option (Counters M) → Type 0
    Records reports s result =
        (t : Counters M) × (result ≡ some t)
        × IsBalanced t
        × ((field : Field) → read field t.total ≡ read field s.total + raised reports field)

    record_all-Records :
        (keys : ℕ → Bool) (reports : List Report) (s : Counters M)
        → ((port : ℕ) → is_key fresh add port s.by_port ≡ keys port)
        → All (λ report. keys (port_of fresh add report) ≡ true) reports
        → IsBalanced s
        → Records reports s (record_all fresh add reports s)
    unfolding record_all record_report
    record_all-Records keys [] s same all balanced = (s, refl, balanced, λ field. omega arith)
    record_all-Records keys (report ∷ reports) s same all balanced =
        let raises =
          port_counters-Raises report s.by_port (same (port_of fresh add report) ∙ all.0) in
        let t : Counters M = record {
          total = change_of fresh add report s.total;
          by_port = raises.0;
        } in
        let rest =
          record_all-Records keys reports t (λ port. raises.3 port ∙ same port) all.1
            (λ field.
              omega (arith, read-change_of report field s.total, raises.2 field, balanced field)) in
        rw (record_all, record_report, raises.1)
          (
            rest.0,
            rest.1,
            rest.2,
            λ field. omega (arith, rest.3 field, read-change_of report field s.total),
          )

    sum-init_port_counters :
        (field : Field) (ports : List ℕ) (map : List (ℕ × PortCounters M))
        → sum field (init_port_counters fresh add ports map) ≡ sum field map
    unfolding init_port_counters
    sum-init_port_counters field [] map = refl
    sum-init_port_counters field (p ∷ ports) map = elim (Bool-cases (is_key fresh add p map)) [
      | inl y ↦ rw y (sum-init_port_counters field ports map)
      | inr n ↦ rw n (
          sum-init_port_counters field ports ((p, default fresh add) ∷ map)
          ∙ omega (arith, read-default field))
    ]

    -- For counters that start at 0 and add exactly: from the start, reports on ports that were
    -- registered are all recorded; then each of the four static counters holds what the reports add up
    -- to, and the same as the sum of the counters of the ports.
    pub record_all-IsBalanced :
        (ports : List ℕ) (reports : List Report)
        → All (λ report. is_elem (port_of fresh add report) ports ≡ true) reports
        → (t : Counters M) × (record_all fresh add reports (record {
          total = default fresh add;
          by_port = init_port_counters fresh add ports [];
        })
            ≡ some t)
          × ((field : Field) → read field t.total ≡ sum field t.by_port)
          × ((field : Field) → read field t.total ≡ raised reports field)
    record_all-IsBalanced ports reports all =
        let t =
          record_all-Records (λ port. is_elem port ports) reports
            (record { total = default fresh add; by_port = init_port_counters fresh add ports [] })
            (λ port.
              is_key-init_port_counters fresh add port ports [] ∙ or_false (is_elem port ports))
            all (λ field. read-default field ∙ sym (sum-init_port_counters field ports [])) in
        (t.0, t.1, t.2, λ field. omega (arith, t.3 field, read-default field))
