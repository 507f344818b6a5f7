-- ===== src/Registry/References.antt =====
-- `validateCrossReferences` of scripts/validate.js: the references between the token table and the
-- contract table. Success lines count nothing and are left out.
use vinuchain_lists.Prelude.{
  ◌≡◌, refl, ap, subst, arith, ◌↔◌, inl, inr, true, Option, none, some, some-injective, List, [],
  ◌∷◌, ◌++◌, Text, text_eq, text_eq_iff, append-eq-nil, All, Bool-cases, if◌then◌else◌,
}
use vinuchain_lists.FileSystem.{FileSystem}
use vinuchain_lists.FilePath.{join}
use vinuchain_lists.Registry.{ContractInfo, Table, TokenData}

pub data ReferenceError : Type 0 where
  no_such_project missing_project other_project : Text → ReferenceError

-- `map.get(k)`, with `map.has(k)` before it.
unfoldable pub find {ℓ} : {A : Type ℓ} → Table A → Text → Option A
unfolding text_eq
find [] k = none
find ((j, a) ∷ t) k = if text_eq j k then some a else find t k

-- `tokenData.project`, where it is there and not empty.
unfoldable pub declared_project : Option Text → Option Text
declared_project (some (c ∷ t)) = some (c ∷ t)
declared_project _ = none

module _ (fs : FileSystem) (contracts_dir : Text) where
  unfoldable pub project_errors : Option Text → List ReferenceError
  project_errors none = []
  project_errors (some p) =
      if fs.exists (join contracts_dir (p ∷ [])) then [] else no_such_project p ∷ []

  unfoldable pub token_errors : Table TokenData → List ReferenceError
  unfolding project_errors declared_project
  token_errors [] = []
  token_errors ((k, token) ∷ t) = project_errors (declared_project token.project) ++ token_errors t

unfoldable pub agreement_errors : Text → Option Text → List ReferenceError
unfolding text_eq
agreement_errors project none = missing_project project ∷ []
agreement_errors project (some p) = if text_eq p project then [] else other_project p ∷ []

unfoldable pub listed_errors : ContractInfo → Option TokenData → List ReferenceError
unfolding agreement_errors declared_project
listed_errors info none = []
listed_errors info (some token) = agreement_errors info.project (declared_project token.project)

unfoldable pub contract_errors : Table TokenData → Table ContractInfo → List ReferenceError
unfolding listed_errors find
contract_errors tokens [] = []
contract_errors tokens ((k, info) ∷ t) =
    listed_errors info (find tokens k) ++ contract_errors tokens t

unfoldable pub validate_cross_references :
    FileSystem → Text → Table TokenData → Table ContractInfo → List ReferenceError
unfolding token_errors contract_errors
validate_cross_references fs contracts_dir tokens contracts =
    token_errors fs contracts_dir tokens ++ contract_errors tokens contracts

-- The project that a token declares has a directory.
abbrev pub HasProject : FileSystem → Text → Text × TokenData → Type 0
HasProject fs contracts_dir e =
    (p : Text)
    → declared_project ((e.1).project) ≡ some p
    → fs.exists (join contracts_dir (p ∷ [])) ≡ true

-- If the contract is a listed token, then the token declares the contract's project.
abbrev pub Agrees : Table TokenData → Text × ContractInfo → Type 0
Agrees tokens e =
    (token : TokenData)
    → find tokens (e.0) ≡ some token
    → declared_project token.project ≡ some ((e.1).project)

project_errors_iff :
    (fs : FileSystem) (dir : Text) (o : Option Text)
    → (project_errors fs dir o ≡ [])
      ↔ ((p : Text) → o ≡ some p → fs.exists (join dir (p ∷ [])) ≡ true)
unfolding project_errors
project_errors_iff fs dir none = (λ h p e. cc e, λ h. refl)
project_errors_iff fs dir (some q) = elim (Bool-cases (fs.exists (join dir (q ∷ [])))) [
  | inl there ↦ (
    λ h p e. subst (λ x. fs.exists (join dir (x ∷ [])) ≡ true) (some-injective e) there,
    λ h. rw there refl,
  )
  | inr absent ↦ (λ h. cc (rw absent at h), λ h. absurd (ground (arith, absent, h q refl)))
]

token_errors_iff :
    (fs : FileSystem) (dir : Text) (tokens : Table TokenData)
    → (token_errors fs dir tokens ≡ []) ↔ All (HasProject fs dir) tokens
unfolding token_errors
token_errors_iff fs dir [] = (λ h. tt, λ h. refl)
token_errors_iff fs dir ((k, token) ∷ t) =
    let here = project_errors_iff fs dir (declared_project token.project) in
    let later = token_errors_iff fs dir t in
    (
      λ h. let (first, rest) = append-eq-nil _ _ h in (here.0 first, later.0 rest),
      λ (h, hs). rw (here.1 h) (later.1 hs),
    )

agreement_errors_iff :
    (project : Text) (o : Option Text) → (agreement_errors project o ≡ []) ↔ (o ≡ some project)
unfolding agreement_errors
agreement_errors_iff project none = (λ h. cc h, λ h. cc h)
agreement_errors_iff project (some p) = elim (Bool-cases (text_eq p project)) [
  | inl same ↦ (λ h. ap some ((text_eq_iff p project).0 same), λ h. rw same refl)
  | inr other ↦ (
    λ h. cc (rw other at h),
    λ h. absurd (ground (arith, other, (text_eq_iff p project).1 (some-injective h))),
  )
]

listed_errors_iff :
    (info : ContractInfo) (o : Option TokenData)
    → (listed_errors info o ≡ [])
      ↔ ((token : TokenData) → o ≡ some token → declared_project token.project ≡ some info.project)
unfolding listed_errors
listed_errors_iff info none = (λ h token e. cc e, λ h. refl)
listed_errors_iff info (some t) =
    let agreement = agreement_errors_iff info.project (declared_project t.project) in
    (
      λ h token e.
          subst (λ x. declared_project x.project ≡ some info.project) (some-injective e)
            (agreement.0 h),
      λ h. agreement.1 (h t refl),
    )

contract_errors_iff :
    (tokens : Table TokenData) (contracts : Table ContractInfo)
    → (contract_errors tokens contracts ≡ []) ↔ All (Agrees tokens) contracts
unfolding contract_errors
contract_errors_iff tokens [] = (λ h. tt, λ h. refl)
contract_errors_iff tokens ((k, info) ∷ t) =
    let here = listed_errors_iff info (find tokens k) in
    let later = contract_errors_iff tokens t in
    (
      λ h. let (first, rest) = append-eq-nil _ _ h in (here.0 first, later.0 rest),
      λ (h, hs). rw (here.1 h) (later.1 hs),
    )

-- The cross-reference check reports nothing exactly when each project that a listed token declares has
-- a directory, and each contract whose chain and address are those of a listed token belongs to the
-- project that this token declares.
pub validate_cross_references_iff :
    (fs : FileSystem) (dir : Text) (tokens : Table TokenData) (contracts : Table ContractInfo)
    → (validate_cross_references fs dir tokens contracts ≡ [])
      ↔ (All (HasProject fs dir) tokens × All (Agrees tokens) contracts)
unfolding validate_cross_references
validate_cross_references_iff fs dir tokens contracts = (
  λ h.
      let (first, rest) = append-eq-nil _ _ h in
      ((token_errors_iff fs dir tokens).0 first, (contract_errors_iff tokens contracts).0 rest),
  λ (h, hs).
      rw ((token_errors_iff fs dir tokens).1 h) ((contract_errors_iff tokens contracts).1 hs),
)
