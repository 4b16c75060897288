-- ===== src/Executor/Expects.antt =====
-- Which states `Execute` (execute.go) expects of the services behind the steps.
use materia.Base.{
  String, ◌≡◌, refl, Bool, true, ◌&&◌, Option, none, some, List, [], ◌∷◌, arith, sym, subst,
}
use materia.Errors.{
  Error, Result, ok, err, OnOk, OnOk-ok, OnOk-err, OnOk-step, OnOk-if, OnOk-map,
  unknown_final_action,
}
use materia.Deps.{Deps, assoc_put}
use materia.Services.{Service, ServiceState}
use materia.Actions.{ActionType, start, stop, restart, reload, enable, disable, todo_eq, todo_code}
use materia.Planner.Host.{is_service_not_found}
use materia.Executor.Host.{Host, Executor}
use materia.Executor.Run.{Expected, expect, expect_found, expect_all}

-- the state that an action leaves a service in, if it settles one; none for other actions
abbrev pub final_of : ActionType → Option (Option ServiceState)
final_of start = some (some "active")
final_of restart = some (some "active")
final_of reload = some (some "active")
final_of stop = some (some "inactive")
final_of enable = some none
final_of disable = some none
final_of t = none

is_stop : (a : ActionType) → todo_eq a stop ≡ true → a ≡ stop
unfolding todo_eq todo_code
is_stop a h = ground arith

and_left : (a b : Bool) → (a && b) ≡ true → a ≡ true
and_left a b h = ground arith

and_right : (a b : Bool) → (a && b) ≡ true → b ≡ true
and_right a b h = ground arith

module _ ⦃D : Deps⦄ where
  abbrev pub settled_in : String → Option ServiceState → Expected → Expected
  settled_in name none x = x
  settled_in name (some state) x = assoc_put name state x

  abbrev on_final : Option (Option ServiceState) → Service → Expected → Result Expected
  on_final none serv x = err unknown_final_action
  on_final (some o) serv x = ok (settled_in serv.name o x)

  expect_lem :
      (a : ActionType) (serv : Service) (x : Expected)
      → expect a serv x ≡ on_final (final_of a) serv x
  unfolding expect
  expect_lem a serv x = ground arith

  on_final-settled :
      (f : Option (Option ServiceState)) (serv : Service) (x : Expected)
      → OnOk
          (λ y. (o : Option ServiceState) × (f ≡ some o) × (y ≡ settled_in serv.name o x))
          (on_final f serv x)
  on_final-settled none serv x = OnOk-err _
  on_final-settled (some o) serv x = OnOk-ok (o, refl, refl)

  module _ {S : Type 0} (h : Host S) (s : S) where
    -- what is expected once the last actions on some units are looked at
    pub data Expects : List (String × ActionType) → Expected → Expected → Type 0 where
      all_asked : {x : Expected} → Expects [] x x
      gone :
          {rest : List (String × ActionType)} {x y : Expected} (k : String) (why : Error)
          → h.get_service k s ≡ err why
          → is_service_not_found why ≡ true
          → Expects rest x y
          → Expects ((k, stop) ∷ rest) x y
      settled :
          {rest : List (String × ActionType)} {x y : Expected} (k : String) (a : ActionType)
          (serv : Service) (o : Option ServiceState)
          → h.get_service k s ≡ ok serv
          → final_of a ≡ some o
          → Expects rest (settled_in serv.name o x) y
          → Expects ((k, a) ∷ rest) x y

    -- what one more unit adds to what is expected
    Adds : String → ActionType → Expected → Expected → Type 0
    Adds k a x x' =
        (rest : List (String × ActionType)) (y : Expected)
        → Expects rest x' y
        → Expects ((k, a) ∷ rest) x y

    found-Adds :
        (k : String) (a : ActionType) (x : Expected) (r : Result Service)
        → h.get_service k s ≡ r
        → OnOk (Adds k a x) (expect_found a r x)
    unfolding expect_found Adds
    found-Adds k a x (err why) g =
        OnOk-if (is_service_not_found why && todo_eq a stop) _ _
          (λ both. OnOk-ok (λ rest y more.
            subst (λ t. Expects ((k, t) ∷ rest) x y) (sym (is_stop a (and_right _ _ both)))
              (gone k why g (and_left _ _ both) more)))
          (λ _. OnOk-err _)
    found-Adds k a x (ok serv) g = subst (OnOk (Adds k a x)) (sym (expect_lem a serv x)) (
        OnOk-map _ (on_final-settled (final_of a) serv x) (λ x' (o, f, q) rest y more.
          settled k a serv o g f (subst (λ t. Expects rest t y) q more)))

    pub expect_all-Expects :
        (e : Executor) (xs : List (String × ActionType)) (x : Expected)
        → OnOk (Expects xs x) (expect_all h e xs s x)
    unfolding expect_all Adds
    expect_all-Expects e [] x = OnOk-ok all_asked
    expect_all-Expects e ((k, a) ∷ rest) x =
        OnOk-step _ _ (found-Adds k a x (h.get_service k s) refl)
          (λ x' add. OnOk-map _ (expect_all-Expects e rest x') (λ y more. add rest y more))
