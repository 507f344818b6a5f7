-- ===== src/Json.antt =====
-- JSON values, and the tests that the scripts make on them. A number is an integer: the scripts
-- read no fraction. The keys of an object are distinct, as `JSON.parse` leaves them.
use vinuchain_lists.Prelude.{
  Bool, true, false, Option, none, some, List, [], ◌∷◌, Text, text_eq, ◌==◌, if◌then◌else◌, not,
}
use vinuchain_lists.Numbers.{JsNumber, nan, int}

mutual
  pub data Json : Type 0 where
    null : Json
    bool : Bool → Json
    num : JsNumber → Json
    str : Text → Json
    arr : Items → Json
    obj : Fields → Json

  pub data Items : Type 0 where
    nil : Items
    cons : Json → Items → Items

  pub data Fields : Type 0 where
    end : Fields
    field : Text → Json → Fields → Fields

-- The elements of an array.
unfoldable pub items : Items → List Json
items nil = []
items (cons v vs) = v ∷ items vs

unfoldable pub lookup : Text → Fields → Option Json
unfolding text_eq
lookup k end = none
lookup k (field j v fs) = if text_eq j k then some v else lookup k fs

-- `value.k`; `none` is `undefined`.
unfoldable pub get : Text → Json → Option Json
unfolding lookup
get k (obj fs) = lookup k fs
get k _ = none

-- `typeof value === 'object' && value !== null`, which holds of arrays too.
unfoldable pub is_object : Json → Bool
is_object (obj fs) = true
is_object (arr vs) = true
is_object _ = false

truthy_number : JsNumber → Bool
truthy_number nan = false
truthy_number (int negative n) = not (n == 0)

-- `!!value`
unfoldable pub truthy : Json → Bool
unfolding truthy_number
truthy null = false
truthy (bool b) = b
truthy (num n) = truthy_number n
truthy (str []) = false
truthy _ = true

unfoldable pub truthy_member : Option Json → Option Json
unfolding truthy
truthy_member none = none
truthy_member (some v) = if truthy v then some v else none
