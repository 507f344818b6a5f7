-- ===== src/Abi/Laws.antt =====
-- `validateABIParameter` and the parameters of `Abi.Spec`.
use vinuchain_lists.Prelude.{
  ℕ, zero, suc, ◌≡◌, refl, ◌∙◌, ◌↔◌, inl, inr, Bool, true, false, not, Option, none, some, [], ◌∷◌,
  Text, codes, starts_with, if◌then◌else◌, Outcome, ok, require, require-eq-ok, >>=-eq-ok,
  Bool-cases, Option-cases,
}
use vinuchain_lists.Regex.{matches}
use vinuchain_lists.Regex.Laws.{Matches, matches_iff}
use vinuchain_lists.Json.{Json, str, arr, obj, Items, nil, cons, get, is_object, truthy_member}
use vinuchain_lists.Abi.{
  AbiError, parameter_not_object, bad_type, bad_parameter_name, identifier, type_format,
  text_member, check_name, check_items, check_components, depth, check_typed, parameter_step,
  parameter_on, validate_abi_parameter,
}
use vinuchain_lists.Abi.Spec.{
  IsName, IsParameter, parameter, HasComponents, plain, absent, tuple, AreParameters, done, more,
}
use vinuchain_lists.Abi.Fuel.{validate_abi_parameter_lem}

abbrev Passes : Outcome AbiError (Unit {0}) → Type 0
Passes m = m ≡ ok tt

unit_ok : {u : Unit {0}} {m : Outcome AbiError (Unit {0})} → m ≡ ok u → Passes m
unit_ok h = h

require-not : (b : Bool) (e : AbiError) → Passes (require (not b) e) → b ≡ false
require-not true e h = cc
require-not false e h = refl

pub object_of_member :
    (k : Text) (v : Json) {t : Text} → text_member (get k v) ≡ some t → is_object v ≡ true
unfolding get is_object text_member
object_of_member k (obj fs) h = refl
object_of_member k (arr vs) h = refl
object_of_member k _ h = cc

check_name_sound : (o : Option Json) → Passes (check_name o) → IsName o
unfolding check_name
check_name_sound none h = inl refl
check_name_sound (some (str [])) h = inr ([], refl, inl refl)
check_name_sound (some (str (c ∷ t))) h =
    let (named, rest) = require-eq-ok (matches identifier (c ∷ t)) bad_parameter_name _ h in
    inr (c ∷ t, refl, inr ((matches_iff identifier (c ∷ t)).0 named, require-not _ _ rest))
check_name_sound (some _) h = cc

check_name_complete : (o : Option Json) → IsName o → Passes (check_name o)
unfolding check_name
check_name_complete o (inl unnamed) = rw unnamed refl
check_name_complete o (inr (t, named, inl empty)) = rw (named, empty) refl
check_name_complete o (inr ([], named, inr fits)) = rw named refl
check_name_complete o (inr (c ∷ t, named, inr (fits, safe))) =
    rw (named, (matches_iff identifier (c ∷ t)).1 fits, safe) refl

pub items_sound :
    (check : Json → Outcome AbiError (Unit {0})) (vs : Items)
    → ((v : Json) → Passes (check v) → IsParameter v)
    → Passes (check_items check vs)
    → AreParameters vs
unfolding check_items
items_sound check nil sound h = done refl
items_sound check (cons v vs) sound h =
    let (u, first, rest) = >>=-eq-ok (check v) _ h in
    more v vs refl (sound v first) (items_sound check vs sound rest)

components_sound :
    (check : Json → Outcome AbiError (Unit {0})) (type : Text) (o : Option Json)
    → ((v : Json) → Passes (check v) → IsParameter v)
    → Passes (check_components check o)
    → HasComponents type o
unfolding check_components
components_sound check type (some (arr vs)) sound h = tuple refl (items_sound check vs sound h)
components_sound check type none sound h = absent refl
components_sound check type (some _) sound h = cc

tuple_sound :
    (check : Json → Outcome AbiError (Unit {0})) (type : Text) (o : Option Json)
    → ((v : Json) → Passes (check v) → IsParameter v)
    → Passes (if starts_with (codes "tuple") type then check_components check o else ok tt)
    → HasComponents type o
tuple_sound check type o sound h = elim (Bool-cases (starts_with (codes "tuple") type)) [
  | inl is_tuple ↦ components_sound check type o sound (rw is_tuple at h)
  | inr other ↦ plain other
]

step_sound :
    (check : Json → Outcome AbiError (Unit {0})) (v : Json)
    → ((w : Json) → Passes (check w) → IsParameter w)
    → Passes (parameter_step check v)
    → IsParameter v
unfolding parameter_step check_typed
step_sound check v sound h = elim (Option-cases (text_member (get (codes "type") v))) [
  | inl missing ↦
      let (object, h₁) = require-eq-ok (is_object v) parameter_not_object _ h in
      cc (rw (missing, check_typed) at h₁)
  | inr (type, typed) ↦
      let (object, h₁) = require-eq-ok (is_object v) parameter_not_object _ h in
      let (u, named, h₂) =
        >>=-eq-ok (check_name (get (codes "name") v)) _ (rw (typed, check_typed) at h₁) in
      let (formatted, h₃) = require-eq-ok (matches type_format type) bad_type _ h₂ in
      let components = truthy_member (get (codes "components") v) in
      parameter typed (check_name_sound _ named) ((matches_iff type_format type).0 formatted)
        (tuple_sound check type components sound h₃)
]

parameter_on_sound : (f : ℕ) (v : Json) → Passes (parameter_on f v) → IsParameter v
unfolding parameter_on
parameter_on_sound zero v h = cc
parameter_on_sound (suc f) v h = step_sound (parameter_on f) v (parameter_on_sound f) h

step_complete :
    (v : Json) (type : Text)
    → text_member (get (codes "type") v) ≡ some type
    → IsName (get (codes "name") v)
    → Matches type_format type
    → Passes (
        if starts_with (codes "tuple") type
        then check_components validate_abi_parameter (truthy_member (get (codes "components") v))
        else ok tt)
    → Passes (parameter_step validate_abi_parameter v)
unfolding parameter_step check_typed
step_complete v type typed named formatted listed =
    rw (object_of_member (codes "type") v typed, typed)
      (rw (check_name_complete _ named, (matches_iff type_format type).1 formatted) listed)

if_ok : (b : Bool) (m : Outcome AbiError (Unit {0})) → Passes m → Passes (if b then m else ok tt)
if_ok true m h = h
if_ok false m h = refl

mutual
  unfolding check_components check_items

  parameter_complete : {v : Json} → IsParameter v → Passes (validate_abi_parameter v)
  parameter_complete {v} (parameter {type} typed named formatted listed) =
      validate_abi_parameter_lem v
      ∙ step_complete v type typed named formatted (components_complete listed)

  components_complete :
      {type : Text} {o : Option Json}
      → HasComponents type o
      → Passes (
          if starts_with (codes "tuple") type
          then check_components validate_abi_parameter o
          else ok tt)
  components_complete (plain other) = rw other refl
  components_complete {type} (absent none_there) =
      if_ok (starts_with (codes "tuple") type) _ (rw none_there refl)
  components_complete {type} (tuple listed all) =
      if_ok (starts_with (codes "tuple") type) _ (rw listed (items_complete all))

  pub items_complete :
      {vs : Items} → AreParameters vs → Passes (check_items validate_abi_parameter vs)
  items_complete (done e) = rw e refl
  items_complete (more v vs e first rest) = rw (e, parameter_complete first) (items_complete rest)

-- A parameter passes exactly when it has a type in the permitted characters, a permitted name, and,
-- if it is a tuple with components, components that pass.
pub validate_abi_parameter_iff : (v : Json) → (validate_abi_parameter v ≡ ok tt) ↔ IsParameter v
unfolding validate_abi_parameter
validate_abi_parameter_iff v = (parameter_on_sound (suc (depth v)) v, parameter_complete)
