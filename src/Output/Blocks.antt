-- ===== src/Output/Blocks.antt =====
-- What the final report says of the ports.
use statico.Prelude.{
  ℕ, ◌<◌, true, false, List, [], ◌∷◌, map, Option, none, some, ◌≡◌, refl, sym, ap, ◌∙◌, subst, All,
  ◌==◌, arith, Option-cases, inl, inr,
}
use mathlib.Core.List.{Perm, filter_map}
use mathlib.Core.List.Perm
use mathlib.Core.Option.{Option-elim}
use statico.Counters.{PortCounters}
use statico.Output.{
  Line, port_header, port_requests, port_responses, port_request_bytes, port_response_bytes,
  sort_unstable, entry_of, keys, read_counters, port_lines, ports_lines, print_final_report,
}
use statico.Output.Sorted.{
  Ascending, Distinct, All-both, sort_unstable-Ascending, sort_unstable-Perm,
}

-- The blocks of five lines that begin with the header of a port, read back.
abbrev pub blocks : {V G : Type 0} → List (Line V G) → List (ℕ × PortCounters ℕ)
blocks [] = []
blocks
      (port_header port
        ∷ (port_requests a
            ∷ (port_request_bytes b g ∷ (port_responses c ∷ (port_response_bytes d h ∷ lines))))) =
    (port, record { requests = a; request_bytes = b; responses = c; response_bytes = d })
    ∷ blocks lines
blocks (_ ∷ lines) = blocks lines

other :
    {A : Type 0} (p : ℕ) (a : A) (m : List (ℕ × A)) (k : ℕ)
    → (p == k) ≡ false
    → entry_of k ((p, a) ∷ m) ≡ entry_of k m
other p a m k e = let no : (k == p) ≡ false = ground arith in rw no refl

module _ {A B : Type 0} (f : A → B) where
  -- The entry of a port, if it has one.
  abbrev pub entry : List (ℕ × A) → ℕ → Option (ℕ × B)
  entry map port = elim (entry_of port map) [ none ↦ none | some a ↦ some (port, f a) ]

  abbrev pub mapped : List (ℕ × A) → List (ℕ × B)
  mapped [] = []
  mapped ((p, a) ∷ map) = (p, f a) ∷ mapped map

  -- The keys find their own entries.
  own_entries :
      (all m : List (ℕ × A))
      → All (λ k. entry_of k m ≡ entry_of k all) (keys m)
      → Distinct (keys m)
      → filter_map (entry all) (keys m) ≡ mapped m
  unfolding filter_map Option-elim
  own_entries all [] h d = refl
  own_entries all ((p, a) ∷ m) h d =
      let own : (p == p) ≡ true = ground arith in
      let found : entry_of p all ≡ some a = sym h.0 ∙ rw own refl in
      rw (filter_map, entry, found)
        (ap (◌∷◌ (p, f a)) (
          own_entries all m
            (All-both _ _ (λ k. entry_of k m ≡ entry_of k all) (keys m)
              (λ k e g. sym (other p a m k e) ∙ g) d.0 h.1)
            d.1))

module _ {M V G : Type 0} (value : M → V) (as_u64 : V → ℕ) (gigabytes : ℕ → G) where
  -- The numbers that the counters of a port hold.
  abbrev pub figures : PortCounters M → PortCounters ℕ
  figures c = record {
    requests = as_u64 (value c.requests);
    request_bytes = as_u64 (value c.request_bytes);
    responses = as_u64 (value c.responses);
    response_bytes = as_u64 (value c.response_bytes);
  }

  blocks-ports_lines :
      (ports : List ℕ) (map : List (ℕ × PortCounters M))
      → blocks (ports_lines value as_u64 gigabytes ports map) ≡ filter_map (entry figures map) ports
  unfolding ports_lines port_lines filter_map Option-elim
  blocks-ports_lines [] map = refl
  blocks-ports_lines (port ∷ ports) map = elim (Option-cases (entry_of port map)) [
    | inl e ↦ rw (blocks, ports_lines, filter_map, entry, e) (blocks-ports_lines ports map)
    | inr (c, e) ↦
        rw (blocks, ports_lines, filter_map, entry, e)
          (ap (◌∷◌ (port, figures c)) (blocks-ports_lines ports map))
  ]

  entries-All :
      (P : ℕ → Type 0) (map : List (ℕ × PortCounters M)) (ports : List ℕ)
      → All P ports
      → All P (keys (filter_map (entry figures map) ports))
  unfolding filter_map Option-elim
  entries-All P map [] p = tt
  entries-All P map (port ∷ ports) p = elim (Option-cases (entry_of port map)) [
    | inl e ↦ rw (All, filter_map, entry, e) (entries-All P map ports p.1)
    | inr (c, e) ↦ rw (All, filter_map, entry, e) (p.0, entries-All P map ports p.1)
  ]

  entries-Ascending :
      (map : List (ℕ × PortCounters M)) (ports : List ℕ)
      → Ascending ports
      → Ascending (keys (filter_map (entry figures map) ports))
  unfolding filter_map Option-elim
  entries-Ascending map [] up = tt
  entries-Ascending map (port ∷ ports) up = elim (Option-cases (entry_of port map)) [
    | inl e ↦ rw (Ascending, filter_map, entry, e) (entries-Ascending map ports up.1)
    | inr (c, e) ↦
        rw (All, filter_map, entry, e)
          (entries-All (λ p. port < p) map ports up.0, entries-Ascending map ports up.1)
  ]

  same_entries :
      (ports : List ℕ) (map : List (ℕ × PortCounters M))
      → All (λ k. entry_of k map ≡ entry_of k map) ports
  same_entries [] map = tt
  same_entries (port ∷ ports) map = (refl, same_entries ports map)

  -- Let the keys of the map be distinct, as those of a hash map are. Then the final report with
  -- statistics has exactly one block for every port of the map, with the numbers of the port's own counters, and the
  -- blocks are in strictly ascending order of their ports.
  pub blocks-print_final_report :
      (total : PortCounters M) (map : List (ℕ × PortCounters M))
      → Distinct (keys map)
      → Ascending (keys (blocks (print_final_report value as_u64 gigabytes true total (some map))))
        × Perm
            (blocks (print_final_report value as_u64 gigabytes true total (some map)))
            (mapped figures map)
  unfolding print_final_report read_counters
  blocks-print_final_report total map d =
      let same = blocks-ports_lines (sort_unstable (keys map)) map in
      (
        subst (λ b. Ascending (keys b)) (sym same)
            (entries-Ascending map (sort_unstable (keys map))
              (sort_unstable-Ascending (keys map) d)),
        subst (λ b. Perm b (mapped figures map)) (sym same)
            (subst (Perm (filter_map (entry figures map) (sort_unstable (keys map))))
              (own_entries figures map map (same_entries (keys map) map) d)
              (Perm.filter_map (entry figures map) (sort_unstable-Perm (keys map)))),
      )
