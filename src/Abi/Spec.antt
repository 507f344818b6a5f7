-- ===== src/Abi/Spec.antt =====
-- The parameters that an ABI may have, as a derivation: types, names and components, at any depth.
use vinuchain_lists.Prelude.{
  ◌≡◌, ◌⊎◌, false, Option, none, some, [], Text, codes, includes, starts_with,
}
use vinuchain_lists.Regex.Laws.{Matches}
use vinuchain_lists.Json.{Json, str, arr, Items, nil, cons, get, truthy_member}
use vinuchain_lists.Abi.{identifier, type_format, dangerous_names, text_member}

-- A name is left out, is empty, or is an identifier that pollutes no prototype.
abbrev pub IsName : Option Json → Type 0
IsName o =
    (o ≡ none)
    ⊎ ((t : Text) × (o ≡ some (str t))
        × ((t ≡ []) ⊎ (Matches identifier t × (includes dangerous_names t ≡ false))))

mutual
  pub data IsParameter : Json → Type 0 where
    parameter :
        {v : Json} {type : Text}
        → text_member (get (codes "type") v) ≡ some type
        → IsName (get (codes "name") v)
        → Matches type_format type
        → HasComponents type (truthy_member (get (codes "components") v))
        → IsParameter v

  -- Only a tuple's components are read, and only if there are any.
  pub data HasComponents : Text → Option Json → Type 0 where
    plain :
        {type : Text} {o : Option Json}
        → starts_with (codes "tuple") type ≡ false
        → HasComponents type o
    absent : {type : Text} {o : Option Json} → o ≡ none → HasComponents type o
    tuple :
        {type : Text} {o : Option Json} {vs : Items}
        → o ≡ some (arr vs)
        → AreParameters vs
        → HasComponents type o

  pub data AreParameters : Items → Type 0 where
    done : {vs : Items} → vs ≡ nil → AreParameters vs
    more :
        {ws : Items} (v : Json) (vs : Items)
        → ws ≡ cons v vs
        → IsParameter v
        → AreParameters vs
        → AreParameters ws
