-- ===== src/Abi.antt =====
-- scripts/validators/abi-validator.js. Each early return with an error is a constructor of
-- `AbiError`, and each warning one of `AbiWarning`; the text of a message, with the position that
-- it names, is left out. Components nest, so `parameter_on` takes fuel: `validate_abi_parameter`
-- gives one more than the depth of the value.
pub mod Fuel
pub mod Spec
pub mod Laws
pub mod Entries
use Prim.Native.Nat.{max}
use vinuchain_lists.Prelude.{
  ℕ, zero, suc, Bool, true, false, ◌&&◌, ◌||◌, not, Option, none, some, List, [], ◌∷◌, ◌++◌, Text,
  codes, text_eq, includes, starts_with, ◌==◌, is_space, if◌then◌else◌, Outcome, ok, threw, ◌>>=◌,
  ◌>>◌, require,
}
use vinuchain_lists.Regex.{Regex, unit, seq, star, plus, matches, is_alpha, is_alnum, one_of}
use vinuchain_lists.Json.{
  Json, str, arr, obj, null, bool, num, Items, nil, cons, Fields, end, field, items, get, is_object,
  truthy_member,
}

pub data AbiError : Type 0 where
  parameter_not_object missing_type parameter_name_not_string : AbiError
  bad_parameter_name dangerous_name bad_type components_not_array : AbiError
  parameters_not_array item_not_object bad_item_type missing_name bad_name : AbiError
  bad_mutability abi_not_array abi_empty : AbiError
  out_of_fuel : AbiError

pub data AbiWarning : Type 0 where
  missing_inputs missing_outputs no_constructor_or_function : AbiWarning

-- `ABI_FUNCTION_NAME_PATTERN`, `/^[a-zA-Z_][a-zA-Z0-9_]*$/`
abbrev pub identifier : Regex
identifier =
    seq (unit (λ c. is_alpha c || (c == b'_'))) (star (unit (λ c. is_alnum c || (c == b'_'))))

-- `/^[a-zA-Z0-9[\](),\s]+$/`
abbrev pub type_format : Regex
type_format = plus (unit (λ c. is_alnum c || (one_of (codes "[](),") c || is_space c)))

abbrev pub dangerous_names : List Text
dangerous_names = codes "__proto__" ∷ codes "constructor" ∷ codes "prototype" ∷ []

abbrev pub valid_abi_types : List Text
valid_abi_types =
    codes "function"
    ∷ codes "constructor"
    ∷ codes "event"
    ∷ codes "fallback"
    ∷ codes "receive"
    ∷ codes "error"
    ∷ []

abbrev pub valid_state_mutability : List Text
valid_state_mutability = codes "pure" ∷ codes "view" ∷ codes "nonpayable" ∷ codes "payable" ∷ []

-- `!value.k || typeof value.k !== 'string'` is false: the text that stands there.
unfoldable pub text_member : Option Json → Option Text
text_member (some (str (c ∷ t))) = some (c ∷ t)
text_member _ = none

-- The name of a parameter is optional, and may be empty.
unfoldable pub check_name : Option Json → Outcome AbiError (Unit {0})
check_name none = ok tt
check_name (some (str [])) = ok tt
check_name (some (str (c ∷ t))) = do
  require (matches identifier (c ∷ t)) bad_parameter_name
  require (not (includes dangerous_names (c ∷ t))) dangerous_name
check_name (some _) = threw parameter_name_not_string

-- The loop over an array's elements, up to the first error.
unfoldable pub check_items :
    (Json → Outcome AbiError (Unit {0})) → Items → Outcome AbiError (Unit {0})
check_items check nil = ok tt
check_items check (cons v vs) = do check v; check_items check vs

unfoldable pub check_components :
    (Json → Outcome AbiError (Unit {0})) → Option Json → Outcome AbiError (Unit {0})
unfolding check_items
check_components check none = ok tt
check_components check (some (arr vs)) = check_items check vs
check_components check (some _) = threw components_not_array

unfoldable pub check_typed :
    (Json → Outcome AbiError (Unit {0})) → Json → Option Text → Outcome AbiError (Unit {0})
unfolding starts_with
check_typed check v none = threw missing_type
check_typed check v (some type) = do
  check_name (get (codes "name") v)
  require (matches type_format type) bad_type
  if starts_with (codes "tuple") type
      then check_components check (truthy_member (get (codes "components") v))
      else ok tt

-- `validateABIParameter`, whose recursive call is `check`.
unfoldable pub parameter_step :
    (Json → Outcome AbiError (Unit {0})) → Json → Outcome AbiError (Unit {0})
unfolding text_member get is_object
parameter_step check v = do
  require (is_object v) parameter_not_object
  check_typed check v (text_member (get (codes "type") v))

unfoldable pub parameter_on : ℕ → Json → Outcome AbiError (Unit {0})
unfolding parameter_step
parameter_on zero v = threw out_of_fuel
parameter_on (suc fuel) v = parameter_step (parameter_on fuel) v

-- How deep a value nests.
unfoldable mutual
  pub depth : Json → ℕ
  depth (arr vs) = suc (depth_items vs)
  depth (obj fs) = suc (depth_fields fs)
  depth _ = 0

  pub depth_items : Items → ℕ
  depth_items nil = 0
  depth_items (cons v vs) = max (depth v) (depth_items vs)

  pub depth_fields : Fields → ℕ
  depth_fields end = 0
  depth_fields (field k v fs) = max (depth v) (depth_fields fs)

unfoldable pub validate_abi_parameter : Json → Outcome AbiError (Unit {0})
unfolding parameter_on depth
validate_abi_parameter v = parameter_on (suc (depth v)) v

unfoldable pub validate_abi_parameters : Json → Outcome AbiError (Unit {0})
unfolding check_items validate_abi_parameter
validate_abi_parameters (arr vs) = check_items validate_abi_parameter vs
validate_abi_parameters _ = threw parameters_not_array

-- A list of parameters that may be missing, with a warning.
unfoldable pub check_list : AbiWarning → Option Json → Outcome AbiError (List AbiWarning)
unfolding validate_abi_parameters
check_list warning none = ok (warning ∷ [])
check_list warning (some v) = do validate_abi_parameters v; ok []

abbrev pub list_of : AbiWarning → Text → Json → Outcome AbiError (List AbiWarning)
list_of warning k v = check_list warning (truthy_member (get k v))

unfoldable pub check_item_name : Option Text → Outcome AbiError (Unit {0})
unfolding matches
check_item_name none = threw missing_name
check_item_name (some name) = require (matches identifier name) bad_name

unfoldable pub check_mutability : Option Json → Outcome AbiError (Unit {0})
unfolding includes
check_mutability none = ok tt
check_mutability (some (str t)) = require (includes valid_state_mutability t) bad_mutability
check_mutability (some _) = threw bad_mutability

abbrev pub is_kind : Text → List Text → Bool
is_kind type kinds = includes kinds type

unfoldable pub check_typed_item : Json → Option Text → Outcome AbiError (List AbiWarning)
unfolding check_item_name check_list check_mutability text_member get truthy_member includes
check_typed_item v none = threw missing_type
check_typed_item v (some type) = do
  require (is_kind type valid_abi_types) bad_item_type
  if is_kind type (codes "function" ∷ codes "event" ∷ codes "error" ∷ [])
      then check_item_name (text_member (get (codes "name") v))
      else ok tt
  inputs ←
      if is_kind type (codes "function" ∷ codes "constructor" ∷ [])
      then list_of missing_inputs (codes "inputs") v
      else ok []
  outputs ←
      if text_eq type (codes "function") then list_of missing_outputs (codes "outputs") v else ok []
  check_mutability (truthy_member (get (codes "stateMutability") v))
  event_inputs ←
      if text_eq type (codes "event") then list_of missing_inputs (codes "inputs") v else ok []
  ok (inputs ++ (outputs ++ event_inputs))

unfoldable pub validate_abi_item : Json → Outcome AbiError (List AbiWarning)
unfolding check_typed_item is_object
validate_abi_item v = do
  require (is_object v) item_not_object
  check_typed_item v (text_member (get (codes "type") v))

unfoldable pub check_abi_items : Items → Outcome AbiError (List AbiWarning)
unfolding validate_abi_item
check_abi_items nil = ok []
check_abi_items (cons v vs) = do
  here ← validate_abi_item v
  later ← check_abi_items vs
  ok (here ++ later)

-- `abi.some(item => item.type === kind)`
unfoldable pub has_kind : Text → Items → Bool
unfolding text_member get text_eq
has_kind kind nil = false
has_kind kind (cons v vs) =
    (elim (text_member (get (codes "type") v)) [ none ↦ false | some type ↦ text_eq type kind ])
    || has_kind kind vs

unfoldable pub validate_abi : Json → Outcome AbiError (List AbiWarning)
unfolding check_abi_items has_kind
validate_abi (arr nil) = threw abi_empty
validate_abi (arr (cons v vs)) = do
  warnings ← check_abi_items (cons v vs)
  let complete =
      has_kind (codes "constructor") (cons v vs) || has_kind (codes "function") (cons v vs)
  ok (warnings ++ (if complete then [] else no_constructor_or_function ∷ []))
validate_abi _ = threw abi_not_array
