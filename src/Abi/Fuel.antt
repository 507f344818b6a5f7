-- ===== src/Abi/Fuel.antt =====
-- The depth of a parameter as the fuel of `validateABIParameter`.
use vinuchain_lists.Prelude.{
  ℕ, zero, suc, ◌≤◌, ◌<◌, ◌≡◌, ◌≢◌, refl, ap, ◌∙◌, inl, inr, Bool, true, false, Option, none, some,
  Text, codes, text_eq, if◌then◌else◌, Outcome, ok, threw, ◌>>◌, require, [], ◌∷◌, arith,
  Bool-cases, Option-cases, Outcome-cases,
}
use vinuchain_lists.Json.{
  Json, str, arr, obj, Items, nil, cons, Fields, end, field, lookup, get, truthy_member,
}
use vinuchain_lists.Abi.{
  AbiError, out_of_fuel, bad_parameter_name, dangerous_name, bad_type, parameter_not_object,
  check_name, check_items, check_components, check_typed, parameter_step, parameter_on, depth,
  depth_items, depth_fields, validate_abi_parameter, text_member,
}

abbrev Check : Type 0
Check = Json → Outcome AbiError (Unit {0})

depth-lookup :
    (k : Text) (fs : Fields) {v : Json} → lookup k fs ≡ some v → depth v ≤ depth_fields fs
unfolding lookup depth
depth-lookup k end h = cc
depth-lookup k (field j w fs) {v} h = elim (Bool-cases (text_eq j k)) [
  | inl here ↦ let same : w ≡ v = cc (rw (here, lookup) at h) in omega (arith, ap depth same)
  | inr later ↦ omega (arith, depth-lookup k fs (rw (later, lookup) at h))
]

depth-get : (k : Text) (v : Json) {w : Json} → get k v ≡ some w → depth w < depth v
unfolding get depth
depth-get k (obj fs) h = omega (arith, depth-lookup k fs h)
depth-get k _ h = cc

truthy_member-eq-some : (o : Option Json) {v : Json} → truthy_member o ≡ some v → o ≡ some v
unfolding truthy_member
truthy_member-eq-some none h = cc
truthy_member-eq-some (some w) h = ground arith

below_of_get : (k : Text) (v : Json) {w : Json} → get k v ≡ some w → depth w ≤ depth v
below_of_get k v h = omega (arith, depth-get k v h)

module _ (a b : Check) (n : ℕ) (agree : (v : Json) → depth v < n → a v ≡ b v) where
  check_items_cong : (vs : Items) → depth_items vs < n → check_items a vs ≡ check_items b vs
  unfolding check_items depth
  check_items_cong nil h = refl
  check_items_cong (cons v vs) h =
      rw (agree v (omega arith), check_items_cong vs (omega arith)) refl

  check_components_cong :
      (o : Option Json)
      → ((v : Json) → o ≡ some v → depth v ≤ n)
      → check_components a o ≡ check_components b o
  unfolding check_components depth
  check_components_cong (some (arr vs)) h = check_items_cong vs (h (arr vs) refl)
  check_components_cong _ h = refl

parameter_step_cong :
    (a b : Check) (v : Json)
    → ((w : Json) → depth w < depth v → a w ≡ b w)
    → parameter_step a v ≡ parameter_step b v
unfolding parameter_step check_typed
parameter_step_cong a b v agree = elim (Option-cases (text_member (get (codes "type") v))) [
  | inl missing ↦ rw missing refl
  | inr (type, typed) ↦
      let components = truthy_member (get (codes "components") v) in
      let shallow = λ (w : Json) (h : components ≡ some w).
        below_of_get (codes "components") v (truthy_member-eq-some _ h) in
      rw typed (rw (check_components_cong a b (depth v) agree components shallow) refl)
]

parameter_on_agree :
    (f g : ℕ) (v : Json) → depth v < f → depth v < g → parameter_on f v ≡ parameter_on g v
unfolding parameter_on
parameter_on_agree zero g v h k = absurd (omega arith)
parameter_on_agree (suc f) zero v h k = absurd (omega arith)
parameter_on_agree (suc f) (suc g) v h k =
    parameter_step_cong (parameter_on f) (parameter_on g) v
      (λ w below. parameter_on_agree f g w (omega arith) (omega arith))

-- `validate_abi_parameter` is the recursive function of the source: one step, with itself as the
-- recursive call.
pub validate_abi_parameter_lem :
    (v : Json) → validate_abi_parameter v ≡ parameter_step validate_abi_parameter v
unfolding validate_abi_parameter parameter_on
validate_abi_parameter_lem v =
    parameter_step_cong (parameter_on (depth v)) validate_abi_parameter v
      (λ w below. parameter_on_agree (depth v) (suc (depth w)) w below (omega arith))

module _ (check : Check) (n : ℕ)
    (total : (v : Json) → depth v < n → check v ≢ threw out_of_fuel) where
  check_items_total : (vs : Items) → depth_items vs < n → check_items check vs ≢ threw out_of_fuel
  unfolding check_items depth
  check_items_total nil h e = cc
  check_items_total (cons v vs) h e = elim (Outcome-cases (check v)) [
    | inl (u, passed) ↦ check_items_total vs (omega arith) (rw (passed, check_items) at e)
    | inr (f, failed) ↦ total v (omega arith) (failed ∙ (rw (failed, check_items) at e))
  ]

  check_components_total :
      (o : Option Json)
      → ((v : Json) → o ≡ some v → depth v ≤ n)
      → check_components check o ≢ threw out_of_fuel
  unfolding check_components depth
  check_components_total (some (arr vs)) h e = check_items_total vs (h (arr vs) refl) e
  check_components_total none h e = cc
  check_components_total (some _) h e = cc

seq_total :
    (m k : Outcome AbiError (Unit {0}))
    → m ≢ threw out_of_fuel
    → k ≢ threw out_of_fuel
    → (m >> k) ≢ threw out_of_fuel
seq_total (ok u) k hm hk e = hk e
seq_total (threw f) k hm hk e = hm (ap threw (cc e))

require_total : (b : Bool) (f : AbiError) → f ≢ out_of_fuel → require b f ≢ threw out_of_fuel
require_total true f h e = cc
require_total false f h e = h (cc e)

check_name_total : (o : Option Json) → check_name o ≢ threw out_of_fuel
unfolding check_name
check_name_total (some (str (c ∷ t))) =
    seq_total _ _ (require_total _ bad_parameter_name (λ e. cc))
      (require_total _ dangerous_name (λ e. cc))
check_name_total (some (str [])) = λ e. cc
check_name_total none = λ e. cc
check_name_total (some _) = λ e. cc

if_total :
    (b : Bool) (m : Outcome AbiError (Unit {0}))
    → m ≢ threw out_of_fuel
    → (if b then m else ok tt) ≢ threw out_of_fuel
if_total true m h e = h e
if_total false m h e = cc

check_typed_total :
    (check : Check) (v : Json) (o : Option Text)
    → ((w : Json) → depth w < depth v → check w ≢ threw out_of_fuel)
    → check_typed check v o ≢ threw out_of_fuel
unfolding check_typed
check_typed_total check v none total = λ e. cc
check_typed_total check v (some type) total =
    let components = truthy_member (get (codes "components") v) in
    let shallow = λ (w : Json) (h : components ≡ some w).
      below_of_get (codes "components") v (truthy_member-eq-some _ h) in
    seq_total _ _ (check_name_total (get (codes "name") v)) (
      seq_total _ _ (require_total _ bad_type (λ e. cc))
        (if_total _ _ (check_components_total check (depth v) total components shallow)))

parameter_step_total :
    (check : Check) (v : Json)
    → ((w : Json) → depth w < depth v → check w ≢ threw out_of_fuel)
    → parameter_step check v ≢ threw out_of_fuel
unfolding parameter_step
parameter_step_total check v total =
    seq_total _ _ (require_total _ parameter_not_object (λ e. cc))
      (check_typed_total check v (text_member (get (codes "type") v)) total)

parameter_on_total : (f : ℕ) (v : Json) → depth v < f → parameter_on f v ≢ threw out_of_fuel
unfolding parameter_on
parameter_on_total zero v h = absurd (omega arith)
parameter_on_total (suc f) v h =
    parameter_step_total (parameter_on f) v (λ w below. parameter_on_total f w (omega arith))

-- The fuel never runs out.
pub validate_abi_parameter_total : (v : Json) → validate_abi_parameter v ≢ threw out_of_fuel
unfolding validate_abi_parameter
validate_abi_parameter_total v = parameter_on_total (suc (depth v)) v (omega arith)
