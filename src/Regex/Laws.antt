-- ===== src/Regex/Laws.antt =====
-- The language of an expression, and `matches`.
use vinuchain_lists.Prelude.{
  ℕ, ◌≡◌, refl, sym, ap, ◌∙◌, ◌↔◌, ◌⊎◌, inl, inr, Bool, true, [], ◌∷◌, ◌++◌, Text, arith,
  Bool-cases, append-eq-nil,
}
use vinuchain_lists.Regex.{
  Regex, never, eps, unit, seq, alt, star, nullable, join, either, deriv, matches,
}

pub data Matches : Regex → Text → Type 0 where
  nothing : {t : Text} → t ≡ [] → Matches eps t
  one : {p : ℕ → Bool} {t : Text} (c : ℕ) → p c ≡ true → t ≡ c ∷ [] → Matches (unit p) t
  both :
      {r s : Regex} {t : Text} (u v : Text)
      → Matches r u
      → Matches s v
      → t ≡ u ++ v
      → Matches (seq r s) t
  left : {r s : Regex} {t : Text} → Matches r t → Matches (alt r s) t
  right : {r s : Regex} {t : Text} → Matches s t → Matches (alt r s) t
  stop : {r : Regex} {t : Text} → t ≡ [] → Matches (star r) t
  more :
      {r : Regex} {t : Text} (u v : Text)
      → Matches r u
      → Matches (star r) v
      → t ≡ u ++ v
      → Matches (star r) t

pub seq_inv :
    {r s : Regex} {t : Text}
    → Matches (seq r s) t
    → (u : Text) × (v : Text) × Matches r u × Matches s v × (t ≡ u ++ v)
seq_inv (both u v m n e) = (u, v, m, n, e)

alt_inv : {r s : Regex} {t : Text} → Matches (alt r s) t → Matches r t ⊎ Matches s t
alt_inv (left m) = inl m
alt_inv (right m) = inr m

eps_inv : {t : Text} → Matches eps t → t ≡ []
eps_inv (nothing e) = e

never_inv : {t : Text} → Matches never t → ⊥
never_inv m = elim m [ ]

join_complete : (r s : Regex) {u v : Text} → Matches r u → Matches s v → Matches (join r s) (u ++ v)
unfolding join
join_complete never s m n = absurd (never_inv m)
join_complete eps s m n = rw (eps_inv m) n
join_complete _ s m n = both _ _ m n refl

join_sound :
    (r s : Regex) {t : Text}
    → Matches (join r s) t
    → (u : Text) × (v : Text) × Matches r u × Matches s v × (t ≡ u ++ v)
unfolding join
join_sound never s m = absurd (never_inv m)
join_sound eps s m = ([], _, nothing refl, m, refl)
join_sound _ s m = seq_inv m

either_sound : (r s : Regex) {t : Text} → Matches (either r s) t → Matches r t ⊎ Matches s t
unfolding either
either_sound never s m = inr m
either_sound r never m = inl m
either_sound _ _ m = alt_inv m

either_left : (r s : Regex) {t : Text} → Matches r t → Matches (either r s) t
unfolding either
either_left never s m = absurd (never_inv m)
either_left r never m = m
either_left _ _ m = left m

either_right : (r s : Regex) {t : Text} → Matches s t → Matches (either r s) t
unfolding either
either_right never s m = m
either_right r never m = absurd (never_inv m)
either_right _ _ m = right m

nullable_sound : (r : Regex) → nullable r ≡ true → Matches r []
unfolding nullable
nullable_sound never h = cc
nullable_sound eps h = nothing refl
nullable_sound (unit p) h = cc
nullable_sound (seq r s) h =
    both [] [] (nullable_sound r (ground arith)) (nullable_sound s (ground arith)) refl
nullable_sound (alt r s) h = elim (Bool-cases (nullable r)) [
  | inl yes_r ↦ left (nullable_sound r yes_r)
  | inr no_r ↦ right (nullable_sound s (ground arith))
]
nullable_sound (star r) h = stop refl

nullable_complete : {r : Regex} {t : Text} → Matches r t → t ≡ [] → nullable r ≡ true
unfolding nullable
nullable_complete (nothing e) h = refl
nullable_complete (one c pc e) h = cc
nullable_complete (both u v m n e) h =
    let (u_nil, v_nil) = append-eq-nil u v (sym e ∙ h) in
    rw (nullable_complete m u_nil) (nullable_complete n v_nil)
nullable_complete (left m) h = rw (nullable_complete m h)
nullable_complete (right m) h = ground (arith, nullable_complete m h)
nullable_complete (stop e) h = refl
nullable_complete (more u v m n e) h = refl

deriv_sound : (c : ℕ) (r : Regex) {t : Text} → Matches (deriv c r) t → Matches r (c ∷ t)
unfolding deriv
deriv_sound c never m = absurd (never_inv m)
deriv_sound c eps m = absurd (never_inv m)
deriv_sound c (unit p) m = elim (Bool-cases (p c)) [
  | inl fits ↦ one c fits (ap (λ x. c ∷ x) (eps_inv (rw fits at m)))
  | inr misfits ↦ absurd (never_inv (rw misfits at m))
]
deriv_sound c (seq r s) m = elim (Bool-cases (nullable r)) [
  | inl empty ↦ elim (either_sound (join (deriv c r) s) (deriv c s) (rw empty at m)) [
    | inl m' ↦
        let (u, v, first, rest, e) = join_sound (deriv c r) s m' in
        both (c ∷ u) v (deriv_sound c r first) rest (ap (λ x. c ∷ x) e)
    | inr m' ↦ both [] (c ∷ _) (nullable_sound r empty) (deriv_sound c s m') refl
  ]
  | inr full ↦
      let (u, v, first, rest, e) = join_sound (deriv c r) s (rw full at m) in
      both (c ∷ u) v (deriv_sound c r first) rest (ap (λ x. c ∷ x) e)
]
deriv_sound c (alt r s) m = elim (either_sound (deriv c r) (deriv c s) m) [
  | inl m' ↦ left (deriv_sound c r m')
  | inr m' ↦ right (deriv_sound c s m')
]
deriv_sound c (star r) m =
    let (u, v, first, rest, e) = join_sound (deriv c r) (star r) m in
    more (c ∷ u) v (deriv_sound c r first) rest (ap (λ x. c ∷ x) e)

cons-injective : {c d : ℕ} {s t : Text} → d ∷ s ≡ c ∷ t → (d ≡ c) × (s ≡ t)
cons-injective h = (cc h, cc h)

deriv-seq_first :
    (c : ℕ) (r s : Regex) {t : Text}
    → Matches (join (deriv c r) s) t
    → Matches (deriv c (seq r s)) t
unfolding deriv
deriv-seq_first c r s m = elim (Bool-cases (nullable r)) [
  | inl empty ↦ rw empty (either_left (join (deriv c r) s) (deriv c s) m)
  | inr full ↦ rw full m
]

deriv_complete :
    (c : ℕ) {r : Regex} {s : Text} → Matches r s → (t : Text) → s ≡ c ∷ t → Matches (deriv c r) t
unfolding deriv
deriv_complete c (nothing e) t h = cc
deriv_complete c (one {p} d pd e) t h =
    let (same, nil) = cons-injective (sym e ∙ h) in rw (← same, pd) (nothing (sym nil))
deriv_complete c (both {r} {s} [] v m n e) t h =
    rw (nullable_complete m refl)
      (either_right (join (deriv c r) s) (deriv c s) (deriv_complete c n t (sym e ∙ h)))
deriv_complete c (both {r} {s} (d ∷ u) v m n e) t h =
    let (same, rest) = cons-injective (sym e ∙ h) in
    let first = deriv_complete c m u (ap (λ x. x ∷ u) same) in
    deriv-seq_first c r s (rw (← rest) (join_complete (deriv c r) s first n))
deriv_complete c (left m) t h = either_left _ _ (deriv_complete c m t h)
deriv_complete c (right m) t h = either_right _ _ (deriv_complete c m t h)
deriv_complete c (stop e) t h = cc
deriv_complete c (more [] v m n e) t h = deriv_complete c n t (sym e ∙ h)
deriv_complete c (more {r} (d ∷ u) v m n e) t h =
    let (same, rest) = cons-injective (sym e ∙ h) in
    let first = deriv_complete c m u (ap (λ x. x ∷ u) same) in
    rw (← rest) (join_complete (deriv c r) (star r) first n)

-- `matches` accepts exactly the texts of the expression's language.
pub matches_iff : (r : Regex) (t : Text) → (matches r t ≡ true) ↔ Matches r t
unfolding matches
matches_iff r [] = (nullable_sound r, λ m. nullable_complete m refl)
matches_iff r (c ∷ t) =
    let (to, from) = matches_iff (deriv c r) t in
    (λ h. deriv_sound c r (to h), λ m. from (deriv_complete c m t refl))
