-- ===== src/SafeJson/Laws.antt =====
-- The values that `safeParse` and `safeReadJSON` return.
use mathlib.Core.Option
use vinuchain_lists.Prelude.{
  ℕ, ◌≤◌, ◌≡◌, refl, sym, ap, ◌∙◌, inl, inr, true, false, Option, none, some, Text, text_eq,
  Option-cases, require-eq-ok, text_eq_iff, leb, length, if◌then◌else◌, Outcome, ok, threw, ◌>>=◌,
  arith, Bool-cases, leb→le,
}
use vinuchain_lists.Json.{Json, arr, obj, Items, nil, cons, Fields, end, field, lookup}
use vinuchain_lists.FileSystem.{FileSystem, FileError}
use vinuchain_lists.SafeJson.{
  not_found, file_too_large, content_too_large, or_unreadable, or_syntax_error, max_file_size,
  is_dangerous, revive, revive_items, revive_fields, delete_fields, delete_dangerous, JsonError,
  safe_parse, safe_read_json,
}

-- No object of the value, at any depth, has a member with a dangerous key.
unfoldable mutual
  pub IsClean : Json → Type 0
  IsClean (arr vs) = IsCleanItems vs
  IsClean (obj fs) = IsCleanFields fs
  IsClean v = Unit

  pub IsCleanItems : Items → Type 0
  IsCleanItems nil = Unit
  IsCleanItems (cons v vs) = IsClean v × IsCleanItems vs

  pub IsCleanFields : Fields → Type 0
  IsCleanFields end = Unit
  IsCleanFields (field k v fs) = (is_dangerous k ≡ false) × IsClean v × IsCleanFields fs

IsClean-field :
    (k : Text) (v : Json) (fs : Fields)
    → IsClean v
    → IsCleanFields fs
    → IsCleanFields (if is_dangerous k then fs else field k v fs)
unfolding IsClean
IsClean-field k v fs hv hfs = elim (Bool-cases (is_dangerous k)) [
  | inl bad ↦ rw bad hfs
  | inr good ↦ rw good (good, hv, hfs)
]

mutual
  unfolding revive IsClean

  revive-IsClean : (v : Json) → IsClean (revive v)
  revive-IsClean (arr vs) = revive_items-IsClean vs
  revive-IsClean (obj fs) = revive_fields-IsClean fs
  revive-IsClean _ = tt

  revive_items-IsClean : (vs : Items) → IsCleanItems (revive_items vs)
  revive_items-IsClean nil = tt
  revive_items-IsClean (cons v vs) = (revive-IsClean v, revive_items-IsClean vs)

  revive_fields-IsClean : (fs : Fields) → IsCleanFields (revive_fields fs)
  revive_fields-IsClean end = tt
  revive_fields-IsClean (field k v fs) =
      IsClean-field k (revive v) (revive_fields fs) (revive-IsClean v) (revive_fields-IsClean fs)

mutual
  unfolding revive IsClean

  revive_of_clean : (v : Json) → IsClean v → revive v ≡ v
  revive_of_clean (arr vs) h = ap arr (revive_items_of_clean vs h)
  revive_of_clean (obj fs) h = ap obj (revive_fields_of_clean fs h)
  revive_of_clean _ h = refl

  revive_items_of_clean : (vs : Items) → IsCleanItems vs → revive_items vs ≡ vs
  revive_items_of_clean nil h = refl
  revive_items_of_clean (cons v vs) (h, hs) = cc (revive_of_clean v h, revive_items_of_clean vs hs)

  revive_fields_of_clean : (fs : Fields) → IsCleanFields fs → revive_fields fs ≡ fs
  revive_fields_of_clean end h = refl
  revive_fields_of_clean (field k v fs) (good, h, hs) =
      rw good (cc (revive_of_clean v h, revive_fields_of_clean fs hs))

delete_fields_of_clean : (fs : Fields) → IsCleanFields fs → delete_fields fs ≡ fs
unfolding delete_fields IsClean
delete_fields_of_clean end h = refl
delete_fields_of_clean (field k v fs) (good, h, hs) = rw good (cc (delete_fields_of_clean fs hs))

-- After the reviver the three deletions change nothing.
pub delete_dangerous-revive : (v : Json) → delete_dangerous (revive v) ≡ revive v
unfolding delete_dangerous revive
delete_dangerous-revive (obj fs) =
    ap obj (delete_fields_of_clean (revive_fields fs) (revive_fields-IsClean fs))
delete_dangerous-revive _ = refl

-- Reading the result once more changes nothing.
pub revive_idempotent : (v : Json) → revive (revive v) ≡ revive v
revive_idempotent v = revive_of_clean (revive v) (revive-IsClean v)

-- A member survives, revived, exactly when its key is not dangerous.
pub lookup-revive :
    (k : Text) (fs : Fields)
    → lookup k (revive_fields fs)
      ≡ (if is_dangerous k then none else Option.map revive (lookup k fs))
unfolding lookup revive
lookup-revive k end = ground arith
lookup-revive k (field j v fs) = elim (Bool-cases (text_eq j k)) [
  | inl same ↦ ground (arith, lookup-revive k fs, ap is_dangerous ((text_eq_iff j k).0 same))
  | inr other ↦ ground (arith, lookup-revive k fs)
]

or_unreadable-eq-ok :
    {A B : Type 0} (m : Outcome FileError A) (k : A → Outcome JsonError B) {b : B}
    → (or_unreadable m >>= k) ≡ ok b
    → (a : A) × (m ≡ ok a) × (k a ≡ ok b)
unfolding or_unreadable
or_unreadable-eq-ok (ok a) k h = (a, refl, h)
or_unreadable-eq-ok (threw e) k h = cc

or_syntax_error-eq-ok : (o : Option Json) {v : Json} → or_syntax_error o ≡ ok v → o ≡ some v
unfolding or_syntax_error
or_syntax_error-eq-ok none h = cc
or_syntax_error-eq-ok (some w) h = cc

module _ (parse : Text → Option Json) where
  safe_parse-eq-some :
      (t : Text) (v : Json)
      → safe_parse parse t ≡ some v
      → (w : Json) × (parse t ≡ some w) × (v ≡ revive w)
  unfolding safe_parse
  safe_parse-eq-some t v h = elim (Option-cases (parse t)) [
    | inl failed ↦ cc (rw (failed, safe_parse) at h)
    | inr (w, parsed) ↦
        let result : delete_dangerous (revive w) ≡ v = cc (rw (parsed, safe_parse) at h) in
        (w, parsed, sym result ∙ delete_dangerous-revive w)
  ]

  -- A file that is read is there, is within the size limit in bytes and in code units, holds JSON,
  -- and comes back as that JSON without the dangerous members: at every depth the value has none.
  pub safe_read_json-eq-ok :
      (fs : FileSystem) (path : Text) (v : Json)
      → safe_read_json parse fs path ≡ ok v
      → (size : ℕ) × (content : Text) × (w : Json) × (fs.exists path ≡ true)
        × (fs.size path ≡ ok size)
        × (size ≤ max_file_size)
        × (fs.read path ≡ ok content)
        × (length content ≤ max_file_size)
        × (parse content ≡ some w)
        × (v ≡ revive w)
        × IsClean v
  unfolding safe_read_json
  safe_read_json-eq-ok fs path v h =
      let (there, h₁) = require-eq-ok (fs.exists path) not_found _ h in
      let (size, stat, h₂) = or_unreadable-eq-ok (fs.size path) _ h₁ in
      let (fits, h₃) = require-eq-ok (leb size max_file_size) (file_too_large size) _ h₂ in
      let (content, is_read, h₄) = or_unreadable-eq-ok (fs.read path) _ h₃ in
      let (short, h₅) =
        require-eq-ok (leb (length content) max_file_size) (content_too_large (length content)) _
          h₄ in
      let (w, parsed, same) = safe_parse-eq-some content v (or_syntax_error-eq-ok _ h₅) in
      (
        size,
        content,
        w,
        there,
        stat,
        leb→le size max_file_size fits,
        is_read,
        leb→le (length content) max_file_size short,
        parsed,
        same,
        rw same (revive-IsClean w),
      )
