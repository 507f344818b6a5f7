-- ===== src/Solidity/Examples.antt =====
-- The theorems at a small source.
use vinuchain_lists.Prelude.{◌≡◌, ◌↔◌, refl, true, List, Text, codes, ok}
use vinuchain_lists.Regex.{regexes}
use vinuchain_lists.Solidity.{SolidityWarning, has_declaration, validate_solidity_structure}
use vinuchain_lists.Solidity.Declarations.{has_declaration-prefix}
use vinuchain_lists.Solidity.Laws.{IsSource, validate_solidity_structure_iff}

abbrev source : Text
source = codes "pragma solidity ^0.8.0; abstract contract AB { }"

validate_solidity_structure_iff_example :
    ((ws : List SolidityWarning) × (validate_solidity_structure source (codes "AB") ≡ ok ws))
    ↔ IsSource source (codes "AB")
validate_solidity_structure_iff_example = validate_solidity_structure_iff source (codes "AB")

declares_ab : has_declaration source (codes "AB") ≡ true
unfolding has_declaration regexes
declares_ab = refl

has_declaration-prefix_example : has_declaration source (codes "A") ≡ true
has_declaration-prefix_example =
    has_declaration-prefix source (codes "A") (codes "B") (refl, tt) declares_ab
