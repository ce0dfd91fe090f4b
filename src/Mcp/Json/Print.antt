-- ===== src/Mcp/Json/Print.antt =====
-- Printing in front of something is printing, and then that.
use statico.Prelude.{
  ℕ, ◌≤◌, arith, length, length-append, [], ◌∷◌, ◌++◌, ◌≡◌, ap, ◌∙◌, Bytes, append_assoc,
  append-nil,
}
use statico.Mcp.Json.{
  Json, str, token, arr, obj, Items, no_items, item, items, Fields, no_fields, field, fields, print,
  print_items, print_fields,
}

mutual
  pub print-append : (v : Json) (rest : Bytes) → print v rest ≡ print v [] ++ rest
  print-append (str s) rest = simp append_assoc
  print-append (token t) rest = simp append-nil
  print-append (arr xs) rest = ap (◌∷◌ b'[') (
      print_items-append xs (b']' ∷ rest)
      ∙ rw (print_items-append xs (b']' ∷ [])) (simp append_assoc))
  print-append (obj fs) rest = ap (◌∷◌ b'{') (
      print_fields-append fs (b'}' ∷ rest)
      ∙ rw (print_fields-append fs (b'}' ∷ [])) (simp append_assoc))

  print_items-append : (xs : Items) (rest : Bytes) → print_items xs rest ≡ print_items xs [] ++ rest
  print_items-append (no_items ws) rest = simp append-nil
  print_items-append (item ws v ws') rest =
      ap (◌++◌ ws) (print-append v (ws' ++ rest))
      ∙ rw (print-append v (ws' ++ [])) (simp (append_assoc, append-nil))
  print_items-append (items ws v ws' xs) rest =
      ap (◌++◌ ws) (print-append v (ws' ++ (b',' ∷ print_items xs rest)))
      ∙ rw (print-append v (ws' ++ (b',' ∷ print_items xs [])), print_items-append xs rest)
          (simp append_assoc)

  pub print_fields-append :
      (fs : Fields) (rest : Bytes) → print_fields fs rest ≡ print_fields fs [] ++ rest
  print_fields-append (no_fields ws) rest = simp append-nil
  print_fields-append (field ws k ws1 ws2 v ws3) rest =
      rw (print-append v (ws3 ++ rest), print-append v (ws3 ++ []))
        (simp (append_assoc, append-nil))
  print_fields-append (fields ws k ws1 ws2 v ws3 fs) rest =
      rw
        (
          print_fields-append fs rest,
          print-append v (ws3 ++ (b',' ∷ (print_fields fs [] ++ rest))),
          print-append v (ws3 ++ (b',' ∷ print_fields fs [])),
        )
        (simp append_assoc)

pub print_fields_pos :
    (fs : Fields) (c : ℕ) (rest : Bytes) → 1 ≤ length (print_fields fs (c ∷ rest))
print_fields_pos fs c rest =
    rw (print_fields-append fs (c ∷ rest))
      (omega (arith, length-append (print_fields fs []) (c ∷ rest)))
