-- ===== src/Solidity/Declarations.antt =====
-- The declaration that a source must have, as the expressions look for it.
use mathlib.Core.List.{append_assoc}
use vinuchain_lists.Prelude.{
  ◌≡◌, ◌≢◌, sym, ap, ◌∙◌, inl, inr, true, not, some, ◌++◌, Text, codes, ◌==◌, All, All-append,
  arith, Bool-cases,
}
use vinuchain_lists.Regex.{Regex, seq, text, plus, space, matches_somewhere}
use vinuchain_lists.Regex.Laws.{Matches, both, seq_inv}
use vinuchain_lists.Regex.Classes.{Accepted, seq-text_iff, star_iff, somewhere_iff}
use vinuchain_lists.Solidity.{
  declaration, abstract_declaration, to_brace, has_declaration, abstract, extract_contract_type,
}

regroup : (a p r c : Text) → a ++ ((p ++ r) ++ c) ≡ (a ++ p) ++ (r ++ c)
regroup a p r c = simp append_assoc

-- What is found behind something is found.
somewhere-seq :
    (p r : Regex) (t : Text) → matches_somewhere (seq p r) t ≡ true → matches_somewhere r t ≡ true
somewhere-seq p r t h =
    let (a, b, c, e, m) = (somewhere_iff (seq p r) t).0 h in
    let (u, v, _, n, e₂) = seq_inv m in
    (somewhere_iff r t).1 (a ++ u, v, c, e ∙ (ap (λ x. a ++ (x ++ c)) e₂ ∙ regroup a u v c), n)

somewhere_mono :
    (r s : Regex) (t : Text)
    → ((v : Text) → Matches r v → Matches s v)
    → matches_somewhere r t ≡ true
    → matches_somewhere s t ≡ true
somewhere_mono r s t f h =
    let (a, b, c, e, m) = (somewhere_iff r t).0 h in (somewhere_iff s t).1 (a, b, c, e, f b m)

pub abstract-contract :
    (t name : Text)
    → matches_somewhere (abstract_declaration name) t ≡ true
    → matches_somewhere (declaration (codes "contract") name) t ≡ true
abstract-contract t name h = somewhere-seq (plus space) (declaration (codes "contract") name) t (
    somewhere-seq (text (codes "abstract")) (seq (plus space) (declaration (codes "contract") name))
      t h)

-- The type of an abstract contract is given as `contract`: `abstract` is never the answer.
pub extract_contract_type-abstract :
    (content name : Text) → extract_contract_type content name ≢ some abstract
unfolding extract_contract_type
extract_contract_type-abstract content name h =
    elim (Bool-cases (matches_somewhere (declaration (codes "contract") name) content)) [
      | inl found ↦ cc (rw found at h)
      | inr absent ↦
          elim (Bool-cases (matches_somewhere (declaration (codes "interface") name) content)) [
            | inl found ↦ cc (rw (absent, found) at h)
            | inr no_interface ↦
                elim (Bool-cases (matches_somewhere (declaration (codes "library") name) content)) [
                  | inl found ↦ cc (rw (absent, no_interface, found) at h)
                  | inr no_library ↦
                      elim (Bool-cases (matches_somewhere (abstract_declaration name) content)) [
                        | inl found ↦
                            absurd (ground (arith, absent, abstract-contract content name found))
                        | inr nothing ↦ cc (rw (absent, no_interface, no_library, nothing) at h)
                      ]
                ]
          ]
    ]

abbrev pub NoBrace : Text → Type 0
NoBrace t = All (Accepted (λ c. not (c == b'{'))) t

to_brace-append : (more u : Text) → NoBrace more → Matches to_brace u → Matches to_brace (more ++ u)
to_brace-append more u h m =
    let (v, w, star_part, brace, e) = seq_inv m in
    both (more ++ v) w
      ((star_iff (λ c. not (c == b'{')) (more ++ v)).1
        (All-append _ more v h ((star_iff (λ c. not (c == b'{')) v).0 star_part)))
      brace (ap (λ x. more ++ x) e ∙ sym (append_assoc more v w))

named-prefix :
    (name more v : Text)
    → NoBrace more
    → Matches (seq (text (name ++ more)) to_brace) v
    → Matches (seq (text name) to_brace) v
named-prefix name more v h m =
    let (u, e, n) = (seq-text_iff (name ++ more) to_brace v).0 m in
    (seq-text_iff name to_brace v).1
      (more ++ u, e ∙ append_assoc name more u, to_brace-append more u h n)

declaration-prefix :
    (keyword name more v : Text)
    → NoBrace more
    → Matches (declaration keyword (name ++ more)) v
    → Matches (declaration keyword name) v
declaration-prefix keyword name more v h m =
    let (a, b, k, n, e) = seq_inv m in
    let (c, d, s, l, e₂) = seq_inv n in both a b k (both c d s (named-prefix name more d h l) e₂) e

-- A source that declares `name ++ more`, where `more` has no brace, is accepted as one that declares
-- `name`: the expressions do not ask that the name ends.
pub has_declaration-prefix :
    (content name more : Text)
    → NoBrace more
    → has_declaration content (name ++ more) ≡ true
    → has_declaration content name ≡ true
unfolding has_declaration
has_declaration-prefix content name more h found =
    let keep = λ (keyword : Text).
      somewhere_mono (declaration keyword (name ++ more)) (declaration keyword name) content
        (λ v. declaration-prefix keyword name more v h) in
    ground (
      arith,
      found,
      keep (codes "contract"),
      keep (codes "interface"),
      keep (codes "library"),
      abstract-contract content (name ++ more),
    )
