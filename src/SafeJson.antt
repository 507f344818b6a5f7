-- ===== src/SafeJson.antt =====
-- scripts/utils/safe-json.js: JSON read without the keys that pollute prototypes. `JSON.parse`
-- before its reviver runs is a parameter, `parse`.
pub mod Laws
pub mod Terminal
use vinuchain_lists.Prelude.{
  ℕ, zero, suc, ◌+◌, ◌*◌, ◌==◌, filter_by, Bool, true, false, ◌&&◌, ◌||◌, not, Option, none, some,
  List, [], ◌∷◌, Text, codes, text_eq, length, leb, if◌then◌else◌, Outcome, ok, threw, ◌>>=◌, ◌>>◌,
  require,
}
use vinuchain_lists.Json.{
  Json, null, bool, num, str, arr, obj, Items, nil, cons, Fields, end, field,
}
use vinuchain_lists.Regex.{is_digit}
use vinuchain_lists.FileSystem.{FileSystem, FileError}

abbrev pub max_file_size : ℕ
max_file_size = 100 * 1024

-- `key === '__proto__' || key === 'constructor' || key === 'prototype'`
unfoldable pub is_dangerous : Text → Bool
unfolding text_eq
is_dangerous key =
    text_eq key (codes "__proto__")
    || (text_eq key (codes "constructor") || text_eq key (codes "prototype"))

-- The reviver, at every depth: a member with a dangerous key is deleted. The keys of an array are
-- its indices, and none of them is dangerous.
unfoldable mutual
  pub revive : Json → Json
  revive (arr vs) = arr (revive_items vs)
  revive (obj fs) = obj (revive_fields fs)
  revive v = v

  pub revive_items : Items → Items
  revive_items nil = nil
  revive_items (cons v vs) = cons (revive v) (revive_items vs)

  pub revive_fields : Fields → Fields
  revive_fields end = end
  revive_fields (field k v fs) =
      if is_dangerous k then revive_fields fs else field k (revive v) (revive_fields fs)

-- The three `delete`s after the parse.
unfoldable pub delete_fields : Fields → Fields
delete_fields end = end
delete_fields (field k v fs) =
    if is_dangerous k then delete_fields fs else field k v (delete_fields fs)

unfoldable pub delete_dangerous : Json → Json
unfolding delete_fields
delete_dangerous (obj fs) = obj (delete_fields fs)
delete_dangerous v = v

pub data JsonError : Type 0 where
  not_found syntax_error : JsonError
  file_too_large content_too_large : ℕ → JsonError
  unreadable : FileError → JsonError

or_unreadable {ℓ} : {A : Type ℓ} → Outcome FileError A → Outcome JsonError A
or_unreadable (ok a) = ok a
or_unreadable (threw e) = threw (unreadable e)

or_syntax_error : Option Json → Outcome JsonError Json
or_syntax_error none = threw syntax_error
or_syntax_error (some v) = ok v

module _ (parse : Text → Option Json) where
  -- `safeParse`; `none` is a `SyntaxError`.
  unfoldable pub safe_parse : Text → Option Json
  unfolding revive delete_dangerous
  safe_parse t = elim (parse t) [ none ↦ none | some v ↦ some (delete_dangerous (revive v)) ]

  unfoldable pub safe_read_json : FileSystem → Text → Outcome JsonError Json
  unfolding safe_parse or_unreadable or_syntax_error
  safe_read_json fs path = do
    require (fs.exists path) not_found
    size ← or_unreadable (fs.size path)
    require (leb size max_file_size) (file_too_large size)
    content ← or_unreadable (fs.read path)
    require (leb (length content) max_file_size) (content_too_large (length content))
    or_syntax_error (safe_parse content)

  abbrev pub is_schema : Json → Bool
  is_schema (obj fs) = true
  is_schema (arr vs) = true
  is_schema _ = false

  unfoldable pub or_exit : Option Json → Option Json
  or_exit none = none
  or_exit (some v) = if is_schema v then some v else none

  unfoldable pub after_schema : Outcome FileError Text → Option Json
  unfolding or_exit safe_parse
  after_schema (threw e) = none
  after_schema (ok content) = or_exit (safe_parse content)

  -- `none` is the exit of the process.
  unfoldable pub load_schema : FileSystem → Text → Option Json
  unfolding after_schema
  load_schema fs path = if fs.exists path then after_schema (fs.read path) else none

-- How long the rest of a colour code is, at a place behind `ESC [`: digits and semicolons, and an m.
unfoldable pub code_rest : ℕ → Text → ℕ
code_rest n [] = 0
code_rest n (c ∷ t) =
    let more = code_rest (n + 1) t in
    if c == b'm' then n + 1 else if is_digit c || (c == b';') then more else 0

-- The length of the colour code that begins a text, `/\x1b\[[0-9;]*m/`, or 0.
unfoldable pub code_length : Text → ℕ
unfolding code_rest
code_length (e ∷ b ∷ t) = if (e == 27) && (b == b'[') then code_rest 2 t else 0
code_length _ = 0

-- The text without the codes; the number is of the code units of a code that are still to drop.
unfoldable pub drop_codes : ℕ → Text → Text
unfolding code_length
drop_codes n [] = []
drop_codes (suc n) (c ∷ t) = drop_codes n t
drop_codes zero (c ∷ t) = elim (code_length (c ∷ t)) [
  | zero ↦ c ∷ drop_codes zero t
  | suc n ↦ drop_codes n t
]

-- `[\x00-\x1F\x7F-\x9F]`
abbrev pub is_control_unit : ℕ → Bool
is_control_unit c = leb c 31 || (leb 127 c && leb c 159)

unfoldable pub sanitize_for_terminal : Text → Text
unfolding drop_codes
sanitize_for_terminal t = filter_by (λ c. not (is_control_unit c)) (drop_codes 0 t)
