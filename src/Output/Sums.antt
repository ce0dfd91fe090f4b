-- ===== src/Output/Sums.antt =====
-- The totals of the final report against its blocks.
use statico.Prelude.{
  ℕ, ◌+◌, Bool, true, false, ◌||◌, List, [], ◌∷◌, Option, none, some, ◌≡◌, refl, sym, ap, ◌∙◌,
  subst, All, ◌==◌, arith, Bool-cases, Option-cases, inl, inr,
}
use mathlib.Core.List.{Perm, foldr}
use mathlib.Core.List.Perm
use native.Mathlib.Nat.{ℕ_set}
use statico.Counters.{
  PortCounters, Counters, Report, default, is_key, init_port_counters, port_counters, record_report,
  record_all, change_of, port_of,
}
use statico.Counters.Keys.{is_elem}
use statico.Counters.Totals.{
  Field, requests, request_bytes, responses, response_bytes, read, sum, raised,
  record_all-IsBalanced,
}
use statico.Output.{
  Line, total_requests, total_responses, total_request_bytes, total_response_bytes, keys,
  read_counters, print_final_report,
}
use statico.Output.Sorted.{Distinct}
use statico.Output.Blocks.{blocks, figures, mapped, blocks-print_final_report}

-- A total that the report prints.
abbrev pub printed_total : {V G : Type 0} → (V → ℕ) → Field → List (Line V G) → ℕ
printed_total as_u64 field [] = 0
printed_total as_u64 requests (total_requests v ∷ lines) = as_u64 v
printed_total as_u64 request_bytes (total_request_bytes v g ∷ lines) = as_u64 v
printed_total as_u64 responses (total_responses v ∷ lines) = as_u64 v
printed_total as_u64 response_bytes (total_response_bytes v g ∷ lines) = as_u64 v
printed_total as_u64 field (_ ∷ lines) = printed_total as_u64 field lines

-- The sum of the numbers in the blocks.
abbrev pub printed_sum : Field → List (ℕ × PortCounters ℕ) → ℕ
printed_sum field blocks = sum 0 ◌+◌ (λ n. n) field blocks

module _ {M : Type 0} (fresh : M) (add : M → ℕ → M) where
  -- A result that has the same keys, if there is one.
  abbrev KeepsKeys : List (ℕ × PortCounters M) → Option (List (ℕ × PortCounters M)) → Type 0
  KeepsKeys map result = elim result [ none ↦ Unit | some changed ↦ keys changed ≡ keys map ]

  port_counters-KeepsKeys :
      (port : ℕ) (change : PortCounters M → PortCounters M) (map : List (ℕ × PortCounters M))
      → KeepsKeys map (port_counters fresh add port change map)
  unfolding port_counters
  port_counters-KeepsKeys port change [] = tt
  port_counters-KeepsKeys port change ((p, c) ∷ map) = elim (Bool-cases (port == p)) [
    | inl y ↦ rw (KeepsKeys, port_counters, y) refl
    | inr n ↦ elim (Option-cases (port_counters fresh add port change map)) [
      | inl e ↦ rw (KeepsKeys, port_counters, n, e) tt
      | inr (changed, e) ↦
          rw (KeepsKeys, port_counters, n, e)
            (ap (◌∷◌ p) (subst (KeepsKeys map) e (port_counters-KeepsKeys port change map)))
    ]
  ]

  abbrev KeepsPorts : Counters M → Option (Counters M) → Type 0
  KeepsPorts s result = elim result [ none ↦ Unit | some t ↦ keys t.by_port ≡ keys s.by_port ]

  record_all-KeepsPorts :
      (reports : List Report) (s : Counters M) → KeepsPorts s (record_all fresh add reports s)
  unfolding record_all record_report
  record_all-KeepsPorts [] s = refl
  record_all-KeepsPorts (report ∷ reports) s =
      elim (Option-cases (
        port_counters fresh add (port_of fresh add report) (change_of fresh add report)
          s.by_port)) [
            | inl e ↦ rw (KeepsPorts, record_all, record_report, e) tt
            | inr (changed, e) ↦
                let t : Counters M = record {
                  total = change_of fresh add report s.total;
                  by_port = changed;
                } in
                let same : keys changed ≡ keys s.by_port =
                  subst (KeepsKeys s.by_port) e (port_counters-KeepsKeys _ _ s.by_port) in
                rw (KeepsPorts, record_all, record_report, e)
                  (through t s same _ (record_all-KeepsPorts reports t))
          ]
    where
      through :
          (t s : Counters M)
          → keys t.by_port ≡ keys s.by_port
          → (o : Option (Counters M)) → KeepsPorts t o
          → KeepsPorts s o
      through t s same none k = tt
      through t s same (some u) k = k ∙ same

  not_key :
      (p : ℕ) (map : List (ℕ × PortCounters M))
      → is_key fresh add p map ≡ false
      → All (λ k. (p == k) ≡ false) (keys map)
  not_key p [] h = tt
  not_key p ((q, c) ∷ map) h = elim (Bool-cases (p == q)) [
    | inl y ↦ absurd (ground arith)
    | inr n ↦ (n, not_key p map (ap (λ (b : Bool). b || is_key fresh add p map) (sym n) ∙ h))
  ]

  init-Distinct :
      (ports : List ℕ) (map : List (ℕ × PortCounters M))
      → Distinct (keys map)
      → Distinct (keys (init_port_counters fresh add ports map))
  unfolding init_port_counters
  init-Distinct [] map d = d
  init-Distinct (p ∷ ports) map d = elim (Bool-cases (is_key fresh add p map)) [
    | inl y ↦ rw y (init-Distinct ports map d)
    | inr n ↦ rw n (init-Distinct ports ((p, default fresh add) ∷ map) (not_key p map n, d))
  ]

added : Field → ℕ × PortCounters ℕ → ℕ → ℕ
added field x n = read 0 ◌+◌ (λ n. n) field x.1 + n

sum-foldr :
    (field : Field) (map : List (ℕ × PortCounters ℕ))
    → printed_sum field map ≡ foldr (added field) 0 map
unfolding added
sum-foldr field [] = refl
sum-foldr field ((p, c) ∷ map) = ap (◌+◌ (read 0 ◌+◌ (λ n. n) field c)) (sum-foldr field map)

printed_sum-Perm :
    (field : Field) (xs ys : List (ℕ × PortCounters ℕ))
    → Perm xs ys
    → printed_sum field xs ≡ printed_sum field ys
unfolding added
printed_sum-Perm field xs ys p =
    sum-foldr field xs
    ∙ (Perm.foldr-eq ℕ_set (added field) (λ a b n. omega arith) p 0 ∙ sym (sum-foldr field ys))

module _ {M V G : Type 0} (fresh : M) (add : M → ℕ → M) (value : M → V) (as_u64 : V → ℕ)
    (gigabytes : ℕ → G) where
  sum-mapped :
      (field : Field) (map : List (ℕ × PortCounters M))
      → printed_sum field (mapped (figures value as_u64 gigabytes) map)
        ≡ sum fresh add (λ m. as_u64 (value m)) field map
  sum-mapped field [] = refl
  sum-mapped requests ((p, c) ∷ map) =
      ap (◌+◌ (as_u64 (value c.requests))) (sum-mapped requests map)
  sum-mapped request_bytes ((p, c) ∷ map) =
      ap (◌+◌ (as_u64 (value c.request_bytes))) (sum-mapped request_bytes map)
  sum-mapped responses ((p, c) ∷ map) =
      ap (◌+◌ (as_u64 (value c.responses))) (sum-mapped responses map)
  sum-mapped response_bytes ((p, c) ∷ map) =
      ap (◌+◌ (as_u64 (value c.response_bytes))) (sum-mapped response_bytes map)

  total_lem :
      (field : Field) (total : PortCounters M) (map : List (ℕ × PortCounters M))
      → printed_total as_u64 field (print_final_report value as_u64 gigabytes true total (some map))
        ≡ read fresh add (λ m. as_u64 (value m)) field total
  unfolding print_final_report read_counters
  total_lem requests total map = refl
  total_lem request_bytes total map = refl
  total_lem responses total map = refl
  total_lem response_bytes total map = refl

  module _ (value-fresh : as_u64 (value fresh) ≡ 0)
      (value-add : (m : M) (n : ℕ) → as_u64 (value (add m n)) ≡ as_u64 (value m) + n) where
    -- For counters that start at 0 and add exactly: after any reports on ports that were set
    -- up at the start, each of the four totals that the final report prints is what all these reports add up to, and is the sum
    -- of the numbers that its blocks print for the ports.
    pub print_final_report_sums :
        (ports : List ℕ) (reports : List Report)
        → All (λ report. is_elem (port_of fresh add report) ports ≡ true) reports
        → (t : Counters M) × (record_all fresh add reports (record {
          total = default fresh add;
          by_port = init_port_counters fresh add ports [];
        })
            ≡ some t)
          × ((field : Field)
              → printed_total as_u64 field
                  (print_final_report value as_u64 gigabytes true t.total (some t.by_port))
                ≡ raised fresh add (λ m. as_u64 (value m)) value-fresh value-add reports field)
          × ((field : Field)
              → printed_total as_u64 field
                  (print_final_report value as_u64 gigabytes true t.total (some t.by_port))
                ≡ printed_sum field (
                    blocks
                      (print_final_report value as_u64 gigabytes true t.total (some t.by_port))))
    print_final_report_sums ports reports all =
        let start : Counters M = record {
          total = default fresh add;
          by_port = init_port_counters fresh add ports [];
        } in
        let t =
          record_all-IsBalanced fresh add (λ m. as_u64 (value m)) value-fresh value-add ports
            reports all in
        let kept : keys t.0.by_port ≡ keys (init_port_counters fresh add ports []) =
          subst (KeepsPorts fresh add start) t.1 (record_all-KeepsPorts fresh add reports start) in
        let distinct = subst Distinct (sym kept) (init-Distinct fresh add ports [] tt) in
        (
          t.0,
          t.1,
          λ field. total_lem field t.0.total t.0.by_port ∙ t.3 field,
          λ field.
              total_lem field t.0.total t.0.by_port
              ∙ (t.2 field
                  ∙ (sym (sum-mapped field t.0.by_port)
                      ∙ sym (
                          printed_sum-Perm field _ _
                            (blocks-print_final_report value as_u64 gigabytes t.0.total t.0.by_port
                              distinct).1))),
        )
