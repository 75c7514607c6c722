-- ===== src/Startup/Names.antt =====
-- The names that `main` accepts, and what its exit code tells.
use text.Mathlib.Text.{◌==◌}
use text.Mathlib.TextEquality.{eq_iff}
use match_engine.Prelude.{
  ℕ, ◌≡◌, refl, sym, ap, ◌∙◌, ◌⊎◌, String, Option, none, some, List, [], ◌∷◌, inl, inr, Bool-cases,
  if◌then◌else◌,
}
use match_engine.Prelude.Result.{Result, ok, err}
use match_engine.Database.Connection.{DbConfig}
use match_engine.Startup.Dispatch.{
  Component, matching_engine, persistence_program, order_generator, health_check, web_socket,
  component_of, dispatch, exit_code, main,
}

pub name_of : Component → String
name_of matching_engine = "match"
name_of persistence_program = "persis"
name_of order_generator = "order"
name_of health_check = "heal"
name_of web_socket = "kline"

test_cases :
    (name : String) (x : Component) (others : Option Component) (c : Component)
    → (if name == name_of x then some x else others) ≡ some c
    → (name ≡ name_of c) ⊎ (others ≡ some c)
test_cases name x others c e = elim (Bool-cases (name == name_of x)) [
  | inl t ↦
      let hit : some x ≡ some c = sym (ap (λ b. if b then some x else others) t) ∙ e in
      let same : x ≡ c = cc in inl ((eq_iff name (name_of x)).0 t ∙ ap name_of same)
  | inr t ↦ inr (sym (ap (λ b. if b then some x else others) t) ∙ e)
]

name-component_of : (name : String) (c : Component) → component_of name ≡ some c → name ≡ name_of c
unfolding component_of name_of
name-component_of name c e = elim (test_cases name matching_engine _ c e) [
  | inl h ↦ h
  | inr e1 ↦ elim (test_cases name persistence_program _ c e1) [
    | inl h ↦ h
    | inr e2 ↦ elim (test_cases name order_generator _ c e2) [
      | inl h ↦ h
      | inr e3 ↦ elim (test_cases name health_check _ c e3) [
        | inl h ↦ h
        | inr e4 ↦ elim (test_cases name web_socket none c e4) [ inl h ↦ h | inr e5 ↦ cc ]
      ]
    ]
  ]
]

-- A component is started for its own name and for no other.
pub component_of_name :
    ((c : Component) → component_of (name_of c) ≡ some c)
    × ((name : String) (c : Component) → component_of name ≡ some c → name ≡ name_of c)
unfolding component_of name_of
component_of_name = (
  elim [
    | matching_engine ↦ refl
    | persistence_program ↦ refl
    | order_generator ↦ refl
    | health_check ↦ refl
    | web_socket ↦ refl
  ],
  name-component_of,
)

exit_code_quiet :
    (r r' : Result (Unit {0}))
    → ◌≡◌ {A = ℕ} (elim r [ ok u ↦ 0 | err e ↦ 0 ]) (elim r' [ ok u ↦ 0 | err e ↦ 0 ])
exit_code_quiet (ok u) (ok v) = refl
exit_code_quiet (ok u) (err e) = refl
exit_code_quiet (err e) (ok v) = refl
exit_code_quiet (err e) (err e') = refl

dispatch_start :
    (start start' : DbConfig → Component → Result (Unit {0})) (config : DbConfig)
    (c : Option Component)
    → dispatch start config c ≡ dispatch start' config c
unfolding dispatch
dispatch_start start start' config none = refl
dispatch_start start start' config (some c) = exit_code_quiet (start config c) (start' config c)

exit_code_start :
    (start start' : DbConfig → Component → Result (Unit {0})) (config : Result DbConfig)
    (name : String)
    → exit_code start config name ≡ exit_code start' config name
unfolding exit_code
exit_code_start start start' (err e) name = refl
exit_code_start start start' (ok config) name =
    dispatch_start start start' config (component_of name)

-- Whatever the components do, returning or throwing, the exit code is the same.
pub main_failure :
    (start start' : DbConfig → Component → Result (Unit {0})) (config : Result DbConfig)
    (arguments : List String)
    → main start config arguments ≡ main start' config arguments
unfolding main
main_failure start start' config [] = refl
main_failure start start' config (program ∷ []) = refl
main_failure start start' config (program ∷ name ∷ rest) = exit_code_start start start' config name
