-- ===== src/Prelude/Substrings.antt =====
-- What the string searches find.
use mathlib.Core.Path.{◌≡◌, refl, ap}
use mathlib.Core.Logic.{◌↔◌, inl, inr}
use mathlib.Core.Bool.{true}
use mathlib.Core.List.{List, [], ◌∷◌, ◌++◌}
use native.Mathlib.Omega.{arith}
use vinuchain_lists.Prelude.Tests.{◌==◌, ==_iff, ==-refl, and-eq-true, Bool-cases}
use vinuchain_lists.Prelude.Lists.{In}
use vinuchain_lists.Prelude.Texts.{
  Text, text_eq, text_eq→eq, text_eq_refl, includes, starts_with, contains,
}

abbrev pub Prefix : Text → Text → Type 0
Prefix p t = (u : Text) × (t ≡ p ++ u)

-- `p` stands somewhere in `t`.
abbrev pub Substring : Text → Text → Type 0
Substring p t = (u : Text) × (v : Text) × (t ≡ u ++ (p ++ v))

pub starts_with_sound : (p t : Text) → starts_with p t ≡ true → Prefix p t
unfolding starts_with
starts_with_sound [] t h = (t, refl)
starts_with_sound (a ∷ p) [] h = absurd (ground (arith, h))
starts_with_sound (a ∷ p) (b ∷ t) h =
    let (same, rest) = and-eq-true (a == b) _ h in
    let (u, e) = starts_with_sound p t rest in (u, cc ((==_iff a b).0 same, e))

starts_with_complete : (p u : Text) → starts_with p (p ++ u) ≡ true
unfolding starts_with
starts_with_complete [] u = refl
starts_with_complete (a ∷ p) u = rw (==-refl a) (starts_with_complete p u)

contains_sound : (p t : Text) → contains p t ≡ true → Substring p t
unfolding contains
contains_sound p [] h = let (v, e) = starts_with_sound p [] h in ([], v, e)
contains_sound p (b ∷ t) h = elim (Bool-cases (starts_with p (b ∷ t))) [
  | inl here ↦ let (v, e) = starts_with_sound p (b ∷ t) here in ([], v, e)
  | inr absent ↦
      let (u, v, e) = contains_sound p t (rw absent at h) in (b ∷ u, v, ap (λ w. b ∷ w) e)
]

contains_complete : (p u v : Text) → contains p (u ++ (p ++ v)) ≡ true
unfolding contains
contains_complete [] [] [] = refl
contains_complete [] [] (b ∷ v) = refl
contains_complete (a ∷ p) [] v = rw (starts_with_complete (a ∷ p) v) refl
contains_complete p (b ∷ u) v = elim (Bool-cases (starts_with p (b ∷ (u ++ (p ++ v))))) [
  | inl here ↦ rw here refl
  | inr absent ↦ rw absent (contains_complete p u v)
]

pub contains_iff : (p t : Text) → (contains p t ≡ true) ↔ Substring p t
contains_iff p t = (contains_sound p t, λ (u, v, e). rw e (contains_complete p u v))

pub includes_iff : (ss : List Text) (t : Text) → (includes ss t ≡ true) ↔ In t ss
unfolding includes
includes_iff [] t = (λ h. absurd (ground (arith, h)), λ m. absurd m)
includes_iff (s ∷ ss) t = elim (Bool-cases (text_eq s t)) [
  | inl same ↦ (λ h. inl (text_eq→eq s t same), λ m. rw same refl)
  | inr other ↦ (
    λ h. inr ((includes_iff ss t).0 (rw other at h)),
    λ m. rw other (elim m [
      | inl e ↦ absurd (ground (arith, other, text_eq_refl t, ap (λ r. text_eq r t) e))
      | inr later ↦ (includes_iff ss t).1 later
    ]),
  )
]
