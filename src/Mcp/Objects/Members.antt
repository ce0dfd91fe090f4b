-- ===== src/Mcp/Objects/Members.antt =====
-- On a well-formed object the object loop is a fold over the members.
use statico.Prelude.{
  ℕ, zero, suc, ◌+◌, ◌<◌, true, List, [], ◌∷◌, ◌++◌, ◌≡◌, refl, Bytes, arith, length, All,
}
use statico.Mcp.Scan.{Scan, found, absent, stuck, ◌>>=◌, is_ws, is_delimiter, Round, next, return}
use statico.Mcp.Scan.At.{At, At-suc, At-append, get_elem?-At, quoted-At, slice-At, At-length}
use statico.Mcp.Scan.Tokens.{NoWs, Delimited, skip_ws-At, parse_string-At}
use statico.Mcp.Scan.Values.{print-NoWs, At-print}
use statico.Mcp.Json.{
  Json, obj, Fields, no_fields, field, fields, IsContent, IsWs, IsJson, IsFields, quoted, print,
  print_fields,
}
use statico.Mcp.Json.Print.{print_fields_pos}
use statico.Mcp.Objects.{
  after_member, after_value, object_round, continue, object_loop, object_scan,
}

-- The members of an object, in order.
abbrev pub members : Fields → List (Bytes × Json)
members (no_fields ws) = []
members (field ws k ws1 ws2 v ws3) = (k, v) ∷ []
members (fields ws k ws1 ws2 v ws3 fs) = (k, v) ∷ members fs

module _ {ℓ κ} {S : Type ℓ} {R : Type κ} where
  -- The members one after the other, until a step fails or returns.
  abbrev pub fold :
      (S → Scan R) → (S → Bytes → Json → Scan (Round S R)) → S → List (Bytes × Json) → Scan R
  fold on_end step s [] = on_end s
  fold on_end step s ((k, v) ∷ m) = do
    r ← step s k v
    elim r [ next s' ↦ fold on_end step s' m | return x ↦ found x ]

  -- A step's outcome, with the position behind the value.
  abbrev pub behind : ℕ → Scan (Round S R) → Scan (Round (S × ℕ) R)
  behind i (found (next s)) = found (next (s, i))
  behind i (found (return x)) = found (return x)
  behind i absent = absent
  behind i stuck = stuck

-- What the loop does at a value of the body is the step on that value, for the members in `P`.
abbrev pub Agrees {ℓ κ} :
    {S : Type ℓ} {R : Type κ}
    → (Bytes × Json → Type 0)
    → Bytes
    → (S → Bytes → ℕ → Scan (Round (S × ℕ) R))
    → (S → Bytes → Json → Scan (Round S R))
    → Type (ℓ ⊔ κ)
Agrees {S = S} P body on_key step =
    (s : S) (k : Bytes) (i : ℕ) (v : Json) (rest : Bytes)
    → P (k, v)
    → At body i (print v rest)
    → IsJson v
    → Delimited rest
    → on_key s k i ≡ behind (i + length (print v [])) (step s k v)

Delimited-ws :
    (ws : Bytes) (e : ℕ) (rest : Bytes)
    → IsWs ws
    → is_delimiter e ≡ true
    → Delimited (ws ++ (e ∷ rest))
Delimited-ws [] e rest h d = d
Delimited-ws (b ∷ ws) e rest h d = unfold is_ws is_delimiter in ground (arith, h.0)

module _ {ℓ κ} {S : Type ℓ} {R : Type κ} (on_end : S → Scan R)
    (on_key : S → Bytes → ℕ → Scan (Round (S × ℕ) R)) (body : Bytes) where
  round_end :
      (i : ℕ) (s : S) (ws rest : Bytes)
      → At body i (ws ++ (b'}' ∷ rest))
      → IsWs ws
      → object_round on_end on_key body i s ≡ (on_end s >>= λ v. found (return v))
  unfolding object_round is_ws
  round_end i s ws rest at w = rw (
    skip_ws-At body i ws (b'}' ∷ rest) at w refl,
    get_elem?-At body (i + length ws) b'}' rest (At-append body i ws (b'}' ∷ rest) at),
  )

  after_comma :
      (i : ℕ) (s : S) (ws rest : Bytes)
      → At body i (ws ++ (b',' ∷ rest))
      → IsWs ws
      → after_member on_end body s i ≡ found (next (s, i + length ws + 1))
  unfolding after_member is_ws
  after_comma i s ws rest at w = rw (
    skip_ws-At body i ws (b',' ∷ rest) at w refl,
    get_elem?-At body (i + length ws) b',' rest (At-append body i ws (b',' ∷ rest) at),
  )

  after_brace :
      (i : ℕ) (s : S) (ws rest : Bytes)
      → At body i (ws ++ (b'}' ∷ rest))
      → IsWs ws
      → after_member on_end body s i ≡ (on_end s >>= λ v. found (return v))
  unfolding after_member is_ws
  after_brace i s ws rest at w = rw (
    skip_ws-At body i ws (b'}' ∷ rest) at w refl,
    get_elem?-At body (i + length ws) b'}' rest (At-append body i ws (b'}' ∷ rest) at),
  )

  -- The position of a member's value.
  abbrev value_at : ℕ → Bytes → Bytes → Bytes → Bytes → ℕ
  value_at i ws k ws1 ws2 = i + length ws + 1 + length k + 1 + length ws1 + 1 + length ws2

  At-colon :
      (i : ℕ) (ws k ws1 rest : Bytes)
      → At body i (ws ++ quoted k (ws1 ++ rest))
      → At body (i + length ws + 1 + length k + 1 + length ws1) rest
  At-colon i ws k ws1 rest at =
      At-append body (i + length ws + 1 + length k + 1) ws1 rest
        (quoted-At body (i + length ws) k (ws1 ++ rest) (At-append body i ws _ at))

  At-value :
      (i : ℕ) (ws k ws1 ws2 rest : Bytes)
      → At body i (ws ++ quoted k (ws1 ++ (b':' ∷ (ws2 ++ rest))))
      → At body (value_at i ws k ws1 ws2) rest
  At-value i ws k ws1 ws2 rest at =
      At-append body (i + length ws + 1 + length k + 1 + length ws1 + 1) ws2 rest (
        At-suc body (i + length ws + 1 + length k + 1 + length ws1) b':' (ws2 ++ rest)
          (At-colon i ws k ws1 (b':' ∷ (ws2 ++ rest)) at))

  round_key :
      (i : ℕ) (s : S) (ws k ws1 ws2 rest : Bytes)
      → At body i (ws ++ quoted k (ws1 ++ (b':' ∷ (ws2 ++ rest))))
      → IsWs ws
      → IsContent k
      → IsWs ws1
      → IsWs ws2
      → NoWs rest
      → object_round on_end on_key body i s
        ≡ (on_key s k (value_at i ws k ws1 ws2) >>= after_value on_end body)
  unfolding object_round is_ws
  round_key i s ws k ws1 ws2 rest at w h w1 w2 n =
      let at_key = At-append body i ws (quoted k (ws1 ++ (b':' ∷ (ws2 ++ rest)))) at in
      let behind_key = quoted-At body (i + length ws) k (ws1 ++ (b':' ∷ (ws2 ++ rest))) at_key in
      let colon = At-colon i ws k ws1 (b':' ∷ (ws2 ++ rest)) at in
      let p = i + length ws + 1 + length k + 1 in
      rw (
        skip_ws-At body i ws (quoted k (ws1 ++ (b':' ∷ (ws2 ++ rest)))) at w refl,
        get_elem?-At body (i + length ws) b'"' (k ++ (b'"' ∷ (ws1 ++ (b':' ∷ (ws2 ++ rest)))))
            at_key,
        parse_string-At body (i + length ws) k (ws1 ++ (b':' ∷ (ws2 ++ rest))) at_key h,
        skip_ws-At body p ws1 (b':' ∷ (ws2 ++ rest)) behind_key w1 refl,
        get_elem?-At body (p + length ws1) b':' (ws2 ++ rest) colon,
        slice-At body (i + length ws + 1) k (b'"' ∷ (ws1 ++ (b':' ∷ (ws2 ++ rest)))) (
            At-suc body (i + length ws) b'"' (k ++ (b'"' ∷ (ws1 ++ (b':' ∷ (ws2 ++ rest)))))
              at_key),
        skip_ws-At body (p + length ws1 + 1) ws2 rest
            (At-suc body (p + length ws1) b':' (ws2 ++ rest) colon) w2 n,
      )

  module _ (loop : S → ℕ → Scan R) where
    continue_end : (m : Scan R) → ((m >>= λ v. found (return v)) >>= continue loop) ≡ m
    continue_end (found v) = refl
    continue_end absent = refl
    continue_end stuck = refl

    -- What a step leads to, in front of a comma: the loop goes on behind it.
    step_comma :
        (r : Scan (Round S R)) (i : ℕ) (ws rest : Bytes) (more : S → Scan R)
        → At body i (ws ++ (b',' ∷ rest))
        → IsWs ws
        → ((s : S) → loop s (i + length ws + 1) ≡ more s)
        → ((behind i r >>= after_value on_end body) >>= continue loop)
          ≡ (r >>= λ r. elim r [ next s' ↦ more s' | return x ↦ found x ])
    step_comma (found (next s)) i ws rest more at w h = rw (after_comma i s ws rest at w) (h s)
    step_comma (found (return x)) i ws rest more at w h = refl
    step_comma absent i ws rest more at w h = refl
    step_comma stuck i ws rest more at w h = refl

    step_brace :
        (r : Scan (Round S R)) (i : ℕ) (ws rest : Bytes)
        → At body i (ws ++ (b'}' ∷ rest))
        → IsWs ws
        → ((behind i r >>= after_value on_end body) >>= continue loop)
          ≡ (r >>= λ r. elim r [ next s' ↦ on_end s' | return x ↦ found x ])
    step_brace (found (next s)) i ws rest at w =
        rw (after_brace i s ws rest at w) (continue_end (on_end s))
    step_brace (found (return x)) i ws rest at w = refl
    step_brace absent i ws rest at w = refl
    step_brace stuck i ws rest at w = refl

module _ {ℓ κ} {S : Type ℓ} {R : Type κ} (on_end : S → Scan R)
    (on_key : S → Bytes → ℕ → Scan (Round (S × ℕ) R)) (body : Bytes)
    (step : S → Bytes → Json → Scan (Round S R)) (P : Bytes × Json → Type 0)
    (agrees : Agrees P body on_key step) where
  -- On the members of an object, up to its closing brace, the loop is the fold over them.
  object_loop-fold :
      (fs : Fields) (fuel i : ℕ) (s : S) (rest : Bytes)
      → At body i (print_fields fs (b'}' ∷ rest))
      → IsFields fs
      → All P (members fs)
      → length body < i + fuel
      → object_loop fuel on_end on_key body i s ≡ fold on_end step s (members fs)
  unfolding object_loop
  object_loop-fold fs zero i s rest at h ps l = absurd (
      omega
        (arith, print_fields_pos fs b'}' rest, At-length body i (print_fields fs (b'}' ∷ rest)) at))
  object_loop-fold (no_fields ws) (suc fuel) i s rest at h ps l =
      rw (round_end on_end on_key body i s ws rest at h)
        (continue_end on_end on_key body _ (on_end s))
  object_loop-fold (field ws k ws1 ws2 v ws3) (suc fuel) i s rest at (w, ck, w1, w2, jv, w3) ps l =
      let p = value_at on_end on_key body i ws k ws1 ws2 in
      let tail = ws3 ++ (b'}' ∷ rest) in
      let here = At-value on_end on_key body i ws k ws1 ws2 (print v tail) at in
      rw
        (
          round_key on_end on_key body i s ws k ws1 ws2 (print v tail) at w ck w1 w2
              (print-NoWs v tail jv),
          agrees s k p v tail ps.0 here jv
              (Delimited-ws ws3 b'}' rest w3 (unfold is_delimiter in refl)),
        )
        (step_brace on_end on_key body _ (step s k v) (p + length (print v [])) ws3 rest
          (At-print body p v tail here) w3)
  object_loop-fold (fields ws k ws1 ws2 v ws3 fs) (suc fuel) i s rest at (w, ck, w1, w2, jv, w3, hs)
        ps l =
      let p = value_at on_end on_key body i ws k ws1 ws2 in
      let tail = ws3 ++ (b',' ∷ print_fields fs (b'}' ∷ rest)) in
      let here = At-value on_end on_key body i ws k ws1 ws2 (print v tail) at in
      let there = At-print body p v tail here in
      let q = p + length (print v []) in
      let after = At-suc body (q + length ws3) b',' _ (At-append body q ws3 _ there) in
      rw
        (
          round_key on_end on_key body i s ws k ws1 ws2 (print v tail) at w ck w1 w2
              (print-NoWs v tail jv),
          agrees s k p v tail ps.0 here jv
              (Delimited-ws ws3 b',' _ w3 (unfold is_delimiter in refl)),
        )
        (step_comma on_end on_key body _ (step s k v) q ws3 _
          (λ s'. fold on_end step s' (members fs)) there w3
          (λ s'. object_loop-fold fs fuel (q + length ws3 + 1) s' rest after hs ps.1 (omega arith)))

  -- A scan of a body that is an object, with white space in front and anything behind it.
  pub object_scan-fold :
      (ws : Bytes) (fs : Fields) (rest : Bytes) (s : S)
      → body ≡ ws ++ print (obj fs) rest
      → IsWs ws
      → IsFields fs
      → All P (members fs)
      → object_scan on_end on_key body s ≡ fold on_end step s (members fs)
  unfolding object_scan is_ws
  object_scan-fold ws fs rest s e w h ps =
      let at : At body 0 (ws ++ print (obj fs) rest) = e in
      let here = At-append body 0 ws (print (obj fs) rest) at in
      rw
        (
          skip_ws-At body 0 ws (print (obj fs) rest) at w refl,
          get_elem?-At body (0 + length ws) b'{' (print_fields fs (b'}' ∷ rest)) here,
        )
        (object_loop-fold fs (length body) (0 + length ws + 1) s rest
          (At-suc body (0 + length ws) b'{' (print_fields fs (b'}' ∷ rest)) here) h ps
          (omega arith))
