-- ===== src/Mcp/Objects/Targets.antt =====
-- `find_call_target` of src/mcp.rs on well-formed objects.
use statico.Prelude.{
  ◌^◌, ◌<◌, true, false, List, [], ◌∷◌, ◌++◌, Option, none, some, ◌≡◌, refl, ◌∙◌, Bytes, length,
  equal, eq_of_equal, codes, Bool-cases, inl, inr, if◌then◌else◌,
}
use statico.Mcp.Scan.{Scan, found, ◌>>=◌, ask, Round, next}
use statico.Mcp.Scan.Values.{slice-print}
use statico.Mcp.Json.{Json, obj, Fields, IsWs, IsFields, print}
use statico.Mcp.Objects.{CallTarget, target_key, target_end, find_call_target}
use statico.Mcp.Objects.Values.{Any, All-Any, skip_value-here}
use statico.Mcp.Objects.Members.{members, fold, Agrees, object_scan-fold}

-- The last member with the key, or what was there before.
abbrev pub last_value : Bytes → Option Bytes → List (Bytes × Json) → Option Bytes
last_value wanted before [] = before
last_value wanted before ((k, v) ∷ ms) =
    last_value wanted (if equal k wanted then some (print v []) else before) ms

abbrev target_step : CallTarget → Bytes → Json → Scan (Round CallTarget (Bytes × Option Bytes))
target_step t k v = found (
    next (
      if equal k (codes "name")
      then record t { name = some (print v []) }
      else if equal k (codes "arguments")
      then record t { arguments = some (print v []) }
      else t))

name_ne_arguments :
    (k : Bytes) → equal k (codes "name") ≡ true → equal k (codes "arguments") ≡ false
name_ne_arguments k e = rw (eq_of_equal k (codes "name") e) (unfold equal in refl)

fold-last_value :
    (t : CallTarget) (ms : List (Bytes × Json))
    → fold target_end target_step t ms ≡ (
        ask (last_value (codes "name") t.name ms) >>= λ name.
        found (name, last_value (codes "arguments") t.arguments ms))
unfolding target_end
fold-last_value t [] = refl
fold-last_value t ((k, v) ∷ ms) = elim (Bool-cases (equal k (codes "name"))) [
  | inl e ↦
      rw (e, name_ne_arguments k e) (fold-last_value (record t { name = some (print v []) }) ms)
  | inr e ↦ elim (Bool-cases (equal k (codes "arguments"))) [
    | inl e' ↦ rw (e, e') (fold-last_value (record t { arguments = some (print v []) }) ms)
    | inr e' ↦ rw (e, e') (fold-last_value t ms)
  ]
]

target_key-Agrees :
    (body : Bytes) → length body < 2 ^ 64 → Agrees Any body (target_key body) target_step
unfolding target_key
target_key-Agrees body fits s k i v rest _ at h d =
    rw (skip_value-here body i v rest at h d fits, slice-print body i v rest at)

-- On an object `find_call_target` finds the texts of the last `name` and of the last `arguments`
-- member, and nothing if there is no `name`.
pub find_call_target-last_value :
    (ws : Bytes) (fs : Fields) (rest : Bytes)
    → IsWs ws
    → IsFields fs
    → length (ws ++ print (obj fs) rest) < 2 ^ 64
    → find_call_target (ws ++ print (obj fs) rest) ≡ (
        ask (last_value (codes "name") none (members fs)) >>= λ name.
        found (name, last_value (codes "arguments") none (members fs)))
unfolding find_call_target
find_call_target-last_value ws fs rest w h fits =
    let body = ws ++ print (obj fs) rest in
    object_scan-fold target_end (target_key body) body target_step Any (target_key-Agrees body fits)
      ws fs rest _ refl w h (All-Any (members fs))
    ∙ fold-last_value (record { name = none; arguments = none }) (members fs)
