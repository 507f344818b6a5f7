-- ===== src/Abi/Entries.antt =====
-- `validateABIItem` and `validateABI`: what an accepted ABI is.
use vinuchain_lists.Prelude.{
  ◌≡◌, refl, ◌↔◌, ◌⊎◌, inl, inr, Bool, true, false, Option, none, some, List, [], ◌∷◌, ◌++◌, Text,
  codes, text_eq, includes, if◌then◌else◌, Outcome, ok, require-eq-ok, require-eq-ok_last,
  >>=-eq-ok, Option-cases,
}
use vinuchain_lists.Regex.Laws.{Matches, matches_iff}
use vinuchain_lists.Json.{Json, str, arr, Items, nil, cons, get, is_object, truthy_member}
use vinuchain_lists.Abi.{
  AbiError, AbiWarning, missing_inputs, missing_outputs, item_not_object, bad_item_type, bad_name,
  bad_mutability, identifier, valid_abi_types, valid_state_mutability, text_member, check_items,
  validate_abi_parameter, validate_abi_parameters, check_list, list_of, check_item_name,
  check_mutability, is_kind, check_typed_item, validate_abi_item, check_abi_items, validate_abi,
}
use vinuchain_lists.Abi.Spec.{AreParameters}
use vinuchain_lists.Abi.Laws.{
  object_of_member, items_sound, items_complete, validate_abi_parameter_iff,
}

-- Asked only under a condition.
abbrev pub When : Bool → Type 0 → Type 0
When true P = P
When false P = Unit

-- The member is missing or falsy, or is an array of parameters.
abbrev pub IsParameterList : Option Json → Type 0
IsParameterList o = (o ≡ none) ⊎ ((vs : Items) × (o ≡ some (arr vs)) × AreParameters vs)

abbrev pub IsMutability : Option Json → Type 0
IsMutability o =
    (o ≡ none) ⊎ ((t : Text) × (o ≡ some (str t)) × (includes valid_state_mutability t ≡ true))

abbrev pub HasName : Option Text → Type 0
HasName o = (name : Text) × (o ≡ some name) × Matches identifier name

-- One item of an ABI, told by its members.
pub record IsItem (v : Json) : Type 0 where
  pub type : Text
  pub typed : text_member (get (codes "type") v) ≡ some type
  pub known : is_kind type valid_abi_types ≡ true
  pub named :
      When
        (is_kind type (codes "function" ∷ codes "event" ∷ codes "error" ∷ []))
        (HasName (text_member (get (codes "name") v)))
  pub inputs :
      When
        (is_kind type (codes "function" ∷ codes "constructor" ∷ []))
        (IsParameterList (truthy_member (get (codes "inputs") v)))
  pub outputs :
      When
        (text_eq type (codes "function"))
        (IsParameterList (truthy_member (get (codes "outputs") v)))
  pub mutability : IsMutability (truthy_member (get (codes "stateMutability") v))
  pub event_inputs :
      When (text_eq type (codes "event")) (IsParameterList (truthy_member (get (codes "inputs") v)))

abbrev pub AreItems : Items → Type 0
AreItems nil = Unit
AreItems (cons v vs) = IsItem v × AreItems vs

-- An array with an item, whose items are all in order.
abbrev pub IsAbi : Json → Type 0
IsAbi v = (w : Json) × (vs : Items) × (v ≡ arr (cons w vs)) × AreItems (cons w vs)

-- The code comes to a value.
abbrev pub Accepts : {A : Type 0} → Outcome AbiError A → Type 0
Accepts {A} m = (a : A) × (m ≡ ok a)

when_sound :
    {A : Type 0} {P : Type 0} (b : Bool) (m : Outcome AbiError A) (other : A)
    → (Accepts m → P)
    → Accepts (if b then m else ok other)
    → When b P
when_sound true m other f h = f h
when_sound false m other f h = tt

when_complete :
    {A : Type 0} {P : Type 0} (b : Bool) (m : Outcome AbiError A) (other : A)
    → (P → Accepts m)
    → When b P
    → Accepts (if b then m else ok other)
when_complete true m other f h = f h
when_complete false m other f h = (other, refl)

list_sound : (w : AbiWarning) (o : Option Json) → Accepts (check_list w o) → IsParameterList o
unfolding check_list validate_abi_parameters
list_sound w none h = inl refl
list_sound w (some (arr vs)) (ws, h) =
    let (u, passed, _) = >>=-eq-ok (check_items validate_abi_parameter vs) _ h in
    inr (
      vs,
      refl,
      items_sound validate_abi_parameter vs (λ v. (validate_abi_parameter_iff v).0) passed,
    )
list_sound w (some _) (ws, h) = cc h

list_complete : (w : AbiWarning) (o : Option Json) → IsParameterList o → Accepts (check_list w o)
unfolding check_list validate_abi_parameters
list_complete w o (inl missing) = rw missing (w ∷ [], refl)
list_complete w o (inr (vs, listed, all)) = rw (listed, items_complete all) ([], refl)

name_sound : (o : Option Text) → Accepts (check_item_name o) → HasName o
unfolding check_item_name
name_sound none (u, h) = cc h
name_sound (some name) (u, h) =
    (name, refl, (matches_iff identifier name).0 (require-eq-ok_last _ bad_name h))

name_complete : (o : Option Text) → HasName o → Accepts (check_item_name o)
unfolding check_item_name
name_complete o (name, named, fits) = rw (named, (matches_iff identifier name).1 fits) (tt, refl)

IsMutability-sound : (o : Option Json) → Accepts (check_mutability o) → IsMutability o
unfolding check_mutability
IsMutability-sound none h = inl refl
IsMutability-sound (some (str t)) (u, h) = inr (t, refl, require-eq-ok_last _ bad_mutability h)
IsMutability-sound (some _) (u, h) = cc h

IsMutability-complete : (o : Option Json) → IsMutability o → Accepts (check_mutability o)
unfolding check_mutability
IsMutability-complete o (inl missing) = rw missing (tt, refl)
IsMutability-complete o (inr (t, stands, valid)) = rw (stands, valid) (tt, refl)

typed_sound :
    (v : Json) (type : Text)
    → text_member (get (codes "type") v) ≡ some type
    → Accepts (check_typed_item v (some type))
    → IsItem v
unfolding check_typed_item
typed_sound v type typed (ws, h) =
    let (known, h₁) = require-eq-ok (is_kind type valid_abi_types) bad_item_type _ h in
    let (u, named, h₂) = >>=-eq-ok _ _ h₁ in
    let (ins, inputs, h₃) = >>=-eq-ok _ _ h₂ in
    let (outs, outputs, h₄) = >>=-eq-ok _ _ h₃ in
    let (n, mutable, h₅) = >>=-eq-ok _ _ h₄ in
    let (events, event_inputs, _) = >>=-eq-ok _ _ h₅ in
    record {
      type = type;
      typed = typed;
      known = known;
      named =
          when_sound _ (check_item_name (text_member (get (codes "name") v))) tt (name_sound _)
            (u, named);
      inputs =
          when_sound _ (list_of missing_inputs (codes "inputs") v) [] (list_sound missing_inputs _)
            (ins, inputs);
      outputs =
          when_sound _ (list_of missing_outputs (codes "outputs") v) []
            (list_sound missing_outputs _) (outs, outputs);
      mutability = IsMutability-sound _ (n, mutable);
      event_inputs =
          when_sound _ (list_of missing_inputs (codes "inputs") v) [] (list_sound missing_inputs _)
            (events, event_inputs);
    }

IsItem-sound : (v : Json) → Accepts (validate_abi_item v) → IsItem v
unfolding validate_abi_item
IsItem-sound v (ws, h) =
    let (object, h₁) = require-eq-ok (is_object v) item_not_object _ h in
    elim (Option-cases (text_member (get (codes "type") v))) [
      | inl missing ↦ cc (rw (missing, check_typed_item) at h₁)
      | inr (type, typed) ↦ typed_sound v type typed (ws, rw typed at h₁)
    ]

IsItem-complete : (v : Json) → IsItem v → Accepts (validate_abi_item v)
unfolding validate_abi_item check_typed_item
IsItem-complete v i =
    let (u, named) =
      when_complete _ (check_item_name (text_member (get (codes "name") v))) tt (name_complete _)
        i.named in
    let (ins, inputs) =
      when_complete _ (list_of missing_inputs (codes "inputs") v) []
        (list_complete missing_inputs _) i.inputs in
    let (outs, outputs) =
      when_complete _ (list_of missing_outputs (codes "outputs") v) []
        (list_complete missing_outputs _) i.outputs in
    let (n, mutable) = IsMutability-complete _ i.mutability in
    let (events, event_inputs) =
      when_complete _ (list_of missing_inputs (codes "inputs") v) []
        (list_complete missing_inputs _) i.event_inputs in
    rw (object_of_member (codes "type") v i.typed, i.typed)
      (rw (i.known) (
        rw (named)
          (rw inputs (rw outputs (rw mutable (rw event_inputs (ins ++ (outs ++ events), refl)))))))

items_accepted : (vs : Items) → Accepts (check_abi_items vs) ↔ AreItems vs
unfolding check_abi_items
items_accepted nil = (λ h. tt, λ h. ([], refl))
items_accepted (cons v vs) = (
  λ (ws, h).
      let (here, first, h₁) = >>=-eq-ok (validate_abi_item v) _ h in
      let (later, rest, _) = >>=-eq-ok (check_abi_items vs) _ h₁ in
      (IsItem-sound v (here, first), (items_accepted vs).0 (later, rest)),
  λ (first, rest).
      let (here, one) = IsItem-complete v first in
      let (later, two) = (items_accepted vs).1 rest in rw (one, two) (here ++ later, refl),
)

IsAbi-sound : (v : Json) → Accepts (validate_abi v) → IsAbi v
unfolding validate_abi
IsAbi-sound (arr nil) (ws, h) = cc h
IsAbi-sound (arr (cons v vs)) (ws, h) =
    let (found, passed, _) = >>=-eq-ok (check_abi_items (cons v vs)) _ h in
    (v, vs, refl, (items_accepted (cons v vs)).0 (found, passed))
IsAbi-sound _ (ws, h) = cc h

IsAbi-complete : (v : Json) → IsAbi v → Accepts (validate_abi v)
unfolding validate_abi
IsAbi-complete v (w, vs, is_array, all) =
    let (found, passed) = (items_accepted (cons w vs)).1 all in rw (is_array, passed) (_, refl)

-- An ABI is accepted, with some warnings, exactly when it is an array with at least one item, and
-- each item has a known type; a name that is an identifier, if it is a function, an event or an
-- error; inputs that are missing, falsy or an array of parameters that pass, if it is a function, a
-- constructor or an event; such outputs, if it is a function; and a mutability that is missing,
-- falsy or a known one.
pub validate_abi_iff : (v : Json) → ((ws : List AbiWarning) × (validate_abi v ≡ ok ws)) ↔ IsAbi v
validate_abi_iff v = (IsAbi-sound v, IsAbi-complete v)
