-- ===== src/Solidity.antt =====
-- scripts/validators/solidity-validator.js. The name of a contract is put into an expression as it
-- is: `validateContractName`, which is called before, leaves letters and digits only.
pub mod Scan
pub mod Declarations
pub mod Laws
pub mod Examples
use vinuchain_lists.Prelude.{
  ◌*◌, ℕ, Bool, true, false, ◌&&◌, ◌||◌, not, Option, none, some, List, [], ◌∷◌, ◌++◌, Text, codes,
  length, trim, contains, is_space, leb, ◌==◌, if◌then◌else◌, Outcome, ok, threw, ◌>>=◌, ◌>>◌,
  require,
}
use vinuchain_lists.Regex.{
  Regex, unit, seq, star, text, plus, space, is_digit, matches, matches_somewhere,
}

pub data SolidityError : Type 0 where
  empty_file missing_pragma no_declaration : SolidityError
  file_too_large : ℕ → SolidityError

pub data Danger : Type 0 where
  selfdestruct suicide delegatecall tx_origin blockhash callcode : Danger

pub data SolidityWarning : Type 0 where
  missing_spdx : SolidityWarning
  exact_version old_version : Text → SolidityWarning
  dangerous : Danger → SolidityWarning
  inline_assembly low_level_call uses_ecrecover uses_transfer : SolidityWarning

abbrev pub max_solidity_file_size : ℕ
max_solidity_file_size = 500 * 1024

-- `\s*\(` behind a word
abbrev pub call_of : Text → Regex
call_of word = seq (text word) (seq (star space) (text (codes "(")))

-- `DANGEROUS_SOLIDITY_PATTERNS`, in the order of its keys
abbrev pub dangerous_patterns : List (Danger × Regex)
dangerous_patterns =
    (selfdestruct, call_of (codes "selfdestruct"))
    ∷ (suicide, call_of (codes "suicide"))
    ∷ (delegatecall, call_of (codes "delegatecall"))
    ∷ (tx_origin, text (codes "tx.origin"))
    ∷ (blockhash, call_of (codes "blockhash"))
    ∷ (callcode, call_of (codes "callcode"))
    ∷ []

unfoldable pub patterns_found : List (Danger × Regex) → Text → List SolidityWarning
patterns_found [] content = []
patterns_found ((d, r) ∷ ps) content =
    (if matches_somewhere r content then dangerous d ∷ [] else []) ++ patterns_found ps content

unfoldable pub check_dangerous_patterns : Text → List SolidityWarning
unfolding patterns_found text
check_dangerous_patterns content = patterns_found dangerous_patterns content

-- `[^;]+;`
abbrev pub up_to_semicolon : Regex
up_to_semicolon = seq (plus (unit (λ c. not (c == b';')))) (text (codes ";"))

-- `/pragma\s+solidity\s+[^;]+;/`
abbrev pub pragma_pattern : Regex
pragma_pattern =
    seq (text (codes "pragma"))
      (seq (plus space) (seq (text (codes "solidity")) (seq (plus space) up_to_semicolon)))

-- What stands behind the fixed text at the start.
unfoldable pub strip_text : Text → Text → Option Text
strip_text [] t = some t
strip_text (a ∷ p) [] = none
strip_text (a ∷ p) (b ∷ t) = if a == b then strip_text p t else none

unfoldable pub skip_spaces : Text → Text
skip_spaces [] = []
skip_spaces (c ∷ t) = if is_space c then skip_spaces t else c ∷ t

-- What stands behind one character of white space at the start.
unfoldable pub strip_space : Text → Option Text
strip_space [] = none
strip_space (c ∷ t) = if is_space c then some t else none

-- What stands before the first semicolon, if there is one and something before it.
unfoldable pub before_semicolon : Text → Text → Option Text
before_semicolon seen [] = none
before_semicolon seen (c ∷ t) = if c == b';' then some seen else before_semicolon (seen ++ c ∷ []) t

unfoldable pub nonempty : Option Text → Option Text
nonempty none = none
nonempty (some []) = none
nonempty (some (c ∷ t)) = some (c ∷ t)

infixl 5 ◌⟫◌
abbrev pub ◌⟫◌ {ℓ κ} : {A : Type ℓ} {B : Type κ} → Option A → (A → Option B) → Option B
none ⟫ f = none
some a ⟫ f = f a

-- The group of `/^pragma\s+solidity\s+([^;]+);/`, but for white space at its start, which is trimmed
-- off.
unfoldable pub version_here : Text → Option Text
unfolding strip_text skip_spaces strip_space before_semicolon nonempty
version_here t =
    strip_text (codes "pragma") t
    ⟫ strip_space
    ⟫ (λ u. strip_text (codes "solidity") (skip_spaces u))
    ⟫ strip_space
    ⟫ (λ u. nonempty (before_semicolon [] u))

unfoldable pub or_later : Option Text → Option Text → Option Text
or_later none later = later
or_later (some v) later = some v

-- The group at the first place where the expression matches.
unfoldable pub version_of : Text → Option Text
unfolding version_here or_later
version_of [] = version_here []
version_of (c ∷ t) = or_later (version_here (c ∷ t)) (version_of t)

unfoldable pub starts_with_digit : Text → Bool
starts_with_digit [] = false
starts_with_digit (c ∷ t) = is_digit c

unfoldable pub version_warnings : Option Text → List SolidityWarning
unfolding trim contains starts_with_digit
version_warnings none = []
version_warnings (some group) =
    let version = trim group in
    (if starts_with_digit version
        && (not (contains (codes "^") version) && not (contains (codes ">") version))
      then exact_version version ∷ []
      else [])
    ++ (if contains (codes "0.4.") version
          || (contains (codes "0.5.") version || contains (codes "0.6.") version)
        then old_version version ∷ []
        else [])

-- `(?:[^{]*)?\{`
abbrev pub to_brace : Regex
to_brace = seq (star (unit (λ c. not (c == b'{')))) (text (codes "{"))

-- `keyword\s+name(?:[^{]*)?\{`
abbrev pub declaration : Text → Text → Regex
declaration keyword name = seq (text keyword) (seq (plus space) (seq (text name) to_brace))

abbrev pub abstract_declaration : Text → Regex
abstract_declaration name =
    seq (text (codes "abstract")) (seq (plus space) (declaration (codes "contract") name))

-- One of `contractPatterns` matches.
unfoldable pub has_declaration : Text → Text → Bool
unfolding matches text
has_declaration content name =
    matches_somewhere (declaration (codes "contract") name) content
    || (matches_somewhere (declaration (codes "interface") name) content
        || (matches_somewhere (declaration (codes "library") name) content
            || matches_somewhere (abstract_declaration name) content))

unfoldable pub finds : Regex → SolidityWarning → Text → List SolidityWarning
finds r w content = if matches_somewhere r content then w ∷ [] else []

abbrev pub assembly_pattern : Regex
assembly_pattern = seq (text (codes "assembly")) (seq (star space) (text (codes "{")))

unfoldable pub security_warnings : Text → List SolidityWarning
unfolding finds matches text
security_warnings content =
    finds assembly_pattern inline_assembly content
    ++ ((if matches_somewhere (call_of (codes ".call")) content
            || matches_somewhere (call_of (codes ".callcode")) content
          then low_level_call ∷ []
          else [])
        ++ (finds (call_of (codes "ecrecover")) uses_ecrecover content
            ++ finds (call_of (codes "transfer")) uses_transfer content))

-- `!content || content.trim().length === 0`
abbrev pub is_blank : Text → Bool
is_blank content = length (trim content) == 0

unfoldable pub validate_solidity_structure :
    Text → Text → Outcome SolidityError (List SolidityWarning)
unfolding version_of version_warnings has_declaration check_dangerous_patterns security_warnings
    matches text trim
validate_solidity_structure content name = do
  require (not (is_blank content)) empty_file
  require (leb (length content) max_solidity_file_size) (file_too_large (length content))
  let spdx =
      if contains (codes "// SPDX-License-Identifier:") content then [] else missing_spdx ∷ []
  require (matches_somewhere pragma_pattern content) missing_pragma
  let version = version_warnings (version_of content)
  require (has_declaration content name) no_declaration
  ok (spdx ++ (version ++ (check_dangerous_patterns content ++ security_warnings content)))

abbrev pub validate_solidity_file : Text → Text → Outcome SolidityError (List SolidityWarning)
validate_solidity_file content name = validate_solidity_structure content name

pub data ContractType : Type 0 where
  contract interface library abstract : ContractType

-- The first of the four expressions that matches.
unfoldable pub extract_contract_type : Text → Text → Option ContractType
unfolding matches text
extract_contract_type content name =
    if matches_somewhere (declaration (codes "contract") name) content
    then some contract
    else if matches_somewhere (declaration (codes "interface") name) content
    then some interface
    else if matches_somewhere (declaration (codes "library") name) content
    then some library
    else if matches_somewhere (abstract_declaration name) content
    then some abstract
    else none
