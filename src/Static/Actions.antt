-- ===== src/Static/Actions.antt =====
-- What the services do, apart from what they print.
use statico.Prelude.{ℕ, List, [], ◌∷◌, ◌++◌, Option, none, some, ◌≡◌, refl, ap, ◌∙◌}
use statico.Static.{
  ServiceEvent, request_recorded, response_recorded, printed, delayed, execute_delay,
}

-- All that is done but printing.
abbrev pub unprinted : {D : Type 0} → List (ServiceEvent D) → List (ServiceEvent D)
unprinted [] = []
unprinted (printed text ∷ actions) = unprinted actions
unprinted (request_recorded n ∷ actions) = request_recorded n ∷ unprinted actions
unprinted (response_recorded n ∷ actions) = response_recorded n ∷ unprinted actions
unprinted (delayed d ∷ actions) = delayed d ∷ unprinted actions

unprinted-append :
    {D : Type 0} (xs ys : List (ServiceEvent D))
    → unprinted (xs ++ ys) ≡ unprinted xs ++ unprinted ys
unprinted-append [] ys = refl
unprinted-append (printed text ∷ xs) ys = unprinted-append xs ys
unprinted-append (request_recorded n ∷ xs) ys =
    ap (◌∷◌ (request_recorded n)) (unprinted-append xs ys)
unprinted-append (response_recorded n ∷ xs) ys =
    ap (◌∷◌ (response_recorded n)) (unprinted-append xs ys)
unprinted-append (delayed d ∷ xs) ys = ap (◌∷◌ (delayed d)) (unprinted-append xs ys)

unprinted-execute_delay :
    {D : Type 0} (delay : Option D) → unprinted (execute_delay delay) ≡ execute_delay delay
unprinted-execute_delay none = refl
unprinted-execute_delay (some d) = refl

pub unprinted-actions :
    {D : Type 0} (n : ℕ) (prints observed : List (ServiceEvent D)) (delay : Option D)
    → unprinted prints ≡ []
    → unprinted (request_recorded n ∷ (prints ++ (execute_delay delay ++ observed)))
      ≡ request_recorded n ∷ (execute_delay delay ++ unprinted observed)
unprinted-actions n prints observed delay h = ap (◌∷◌ (request_recorded n)) (
    unprinted-append prints (execute_delay delay ++ observed)
    ∙ (ap (λ (xs : List (ServiceEvent _)). xs ++ unprinted (execute_delay delay ++ observed)) h
        ∙ (unprinted-append (execute_delay delay) observed
            ∙ ap (λ (xs : List (ServiceEvent _)). xs ++ unprinted observed)
                (unprinted-execute_delay delay))))
