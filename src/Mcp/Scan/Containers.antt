-- ===== src/Mcp/Scan/Containers.antt =====
-- The loop over the inside of a container keeps its depth over every balanced piece.
use statico.Prelude.{
  ℕ, zero, suc, ◌+◌, ◌-◌, ◌%◌, ◌^◌, ◌≤◌, ◌<◌, false, ◌∷◌, ◌++◌, ◌≡◌, refl, ◌∙◌, inl, inr, Bytes,
  arith, length, length-append, ap,
}
use statico.Mcp.Scan.{found, container_round, container_loop}
use statico.Mcp.Scan.At.{At, At-suc, quoted-At, get_elem?-At}
use statico.Mcp.Scan.Tokens.{parse_string-At}
use statico.Mcp.Json.{IsContent, is_structural, quoted}
use statico.Mcp.Json.Chunk.{Chunk, nil, plain, string, group, IsPair}

module _ (body : Bytes) (close f i d : ℕ) where
  loop_plain :
      (c : ℕ) (a : Bytes)
      → At body i (c ∷ a)
      → is_structural c ≡ false
      → container_loop (suc f) body close i d ≡ container_loop f body close (i + 1) d
  unfolding container_loop container_round
  loop_plain c a at h = rw (get_elem?-At body i c a at) (ground arith)

  loop_string :
      (s a : Bytes)
      → At body i (quoted s a)
      → IsContent s
      → container_loop (suc f) body close i d ≡ container_loop f body close (i + 1 + length s + 1) d
  unfolding container_loop container_round
  loop_string s a at h =
      rw (get_elem?-At body i b'"' (s ++ (b'"' ∷ a)) at, parse_string-At body i s a at h)

  loop_open :
      (o c : ℕ) (a : Bytes)
      → At body i (o ∷ a)
      → IsPair o c
      → d + 1 < 2 ^ 64
      → container_loop (suc f) body close i d ≡ container_loop f body close (i + 1) (d + 1)
  unfolding container_loop container_round
  loop_open o c a at h lt =
      let wrap : (d + 1) % 2 ^ 64 ≡ d + 1 = omega arith in
      rw (get_elem?-At body i o a at)
        (elim h [ inl (p, _) ↦ rw (p, wrap) | inr (p, _) ↦ rw (p, wrap) ])

  loop_close :
      (o c : ℕ) (a : Bytes) (d' : ℕ)
      → At body i (c ∷ a)
      → IsPair o c
      → d ≡ d' + 1
      → 1 ≤ d'
      → d < 2 ^ 64
      → container_loop (suc f) body close i d ≡ container_loop f body close (i + 1) d'
  unfolding container_loop container_round
  loop_close o c a d' at h e lt le =
      let wrap : (d + 2 ^ 64 - 1) % 2 ^ 64 ≡ d' = omega arith in
      rw (get_elem?-At body i c a at) (elim h [
        | inl (_, p) ↦ rw (p, wrap) (ground arith)
        | inr (_, p) ↦ rw (p, wrap) (ground arith)
      ])

  pub loop_return :
      (o : ℕ) (a : Bytes)
      → At body i (close ∷ a)
      → IsPair o close
      → d ≡ 1
      → container_loop (suc f) body close i d ≡ found (i + 1)
  unfolding container_loop container_round
  loop_return o a at h e = rw (get_elem?-At body i close a at) (ground arith)

-- Where a piece ends: its rest stands at `end`, and the loop goes on from there with what is left
-- of its fuel.
pub record Passed (body : Bytes) (close f i d : ℕ) (a r : Bytes) : Type 0 where
  pub fuel : ℕ
  pub end : ℕ
  pub at_end : At body end r
  pub moved : end + length r ≡ i + length a
  pub burnt : f + length r ≤ fuel + length a
  pub shorter : length r ≤ length a
  pub passed : container_loop f body close i d ≡ container_loop fuel body close end d

-- Over a balanced piece the loop comes back to the depth that it had.
pub loop-Chunk :
    {a r : Bytes} (body : Bytes) (close f i d : ℕ)
    → Chunk a r
    → At body i a
    → 1 ≤ d
    → d + length a < 2 ^ 64
    → length a ≤ f
    → Passed body close f i d a r
loop-Chunk {a} {r} body close f i d (nil e) at p q l = record {
  fuel = f;
  end = i;
  at_end = at ∙ e;
  moved = rw e;
  burnt = rw e (omega arith);
  shorter = rw e (omega arith);
  passed = refl;
}
loop-Chunk body close zero i d (plain h k) at p q l = absurd (omega arith)
loop-Chunk body close (suc f) i d (plain {c} {a} h k) at p q l =
    let rec =
      loop-Chunk body close f (i + 1) d k (At-suc body i c a at) p (omega arith) (omega arith) in
    record {
      fuel = rec.fuel;
      end = rec.end;
      at_end = rec.at_end;
      moved = omega arith;
      burnt = omega arith;
      shorter = omega arith;
      passed = loop_plain body close f i d c a at h ∙ rec.passed;
    }
loop-Chunk body close zero i d (string h k) at p q l = absurd (omega arith)
loop-Chunk body close (suc f) i d (string {s} {a} h k) at p q l =
    let behind = quoted-At body i s a at in
    let long = length-append s (b'"' ∷ a) in
    let rec =
      loop-Chunk body close f (i + 1 + length s + 1) d k behind p (omega (arith, long))
        (omega (arith, long)) in
    record {
      fuel = rec.fuel;
      end = rec.end;
      at_end = rec.at_end;
      moved = omega (arith, long, rec.moved);
      burnt = omega (arith, long, rec.burnt);
      shorter = omega (arith, long, rec.shorter);
      passed = loop_string body close f i d s a at h ∙ rec.passed;
    }
loop-Chunk body close zero i d (group h j k) at p q l = absurd (omega arith)
loop-Chunk body close (suc f) i d (group {o} {c} {a} {b} h j k) at p q l =
    let inner =
      loop-Chunk body close f (i + 1) (d + 1) j (At-suc body i o a at) (omega arith) (omega arith)
        (omega arith) in
    let left : inner.fuel ≡ suc (inner.fuel - 1) = omega (arith, inner.burnt, inner.shorter) in
    let rec =
      loop-Chunk body close (inner.fuel - 1) (inner.end + 1) d k
        (At-suc body inner.end c b inner.at_end) p (omega (arith, inner.shorter))
        (omega (arith, inner.burnt)) in
    record {
      fuel = rec.fuel;
      end = rec.end;
      at_end = rec.at_end;
      moved = omega (arith, inner.moved, rec.moved);
      burnt = omega (arith, inner.burnt, inner.shorter, rec.burnt);
      shorter = omega (arith, inner.shorter, rec.shorter);
      passed =
          loop_open body close f i d o c a at h (omega arith)
          ∙ inner.passed
          ∙ ap (λ n. container_loop n body close inner.end (d + 1)) left
          ∙ loop_close body close (inner.fuel - 1) inner.end (d + 1) o c b d inner.at_end h refl p
              (omega arith)
          ∙ rec.passed;
    }
