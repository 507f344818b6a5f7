-- ===== src/Registry/Tables.antt =====
-- Tables, and pairs of a list.
use vinuchain_lists.Prelude.{
  ◌≡◌, refl, ap, inl, inr, true, false, List, [], ◌∷◌, ◌++◌, Text, text_eq, text_eq_refl, All,
  arith, Bool-cases,
}
use vinuchain_lists.Registry.{Table, has, put}

-- `R` holds of each element and each later one.
abbrev pub Pairwise : {A : Type 0} → (A → A → Type 0) → List A → Type 0
Pairwise R [] = Unit
Pairwise R (x ∷ xs) = All (R x) xs × Pairwise R xs

module _ {A : Type 0} (R : A → A → Type 0) where
  All-snoc : (P : A → Type 0) (xs : List A) (y : A) → All P xs → P y → All P (xs ++ y ∷ [])
  All-snoc P [] y h hy = (hy, tt)
  All-snoc P (x ∷ xs) y (h, hs) hy = (h, All-snoc P xs y hs hy)

  pub Pairwise-snoc :
      (xs : List A) (y : A) → Pairwise R xs → All (λ x. R x y) xs → Pairwise R (xs ++ y ∷ [])
  Pairwise-snoc [] y h hy = (tt, tt)
  Pairwise-snoc (x ∷ xs) y (h, hs) (hy, hys) = (All-snoc (R x) xs y h hy, Pairwise-snoc xs y hs hys)

module _ {A : Type 0} where
  -- A key that is new goes to the end.
  pub put_new :
      (t : Table A) (k : Text) (a : A)
      → All (λ e. text_eq (e.0) k ≡ false) t
      → put t k a ≡ t ++ (k, a) ∷ []
  unfolding put
  put_new [] k a h = refl
  put_new ((j, b) ∷ t) k a (h, hs) = rw h (ap (λ u. (j, b) ∷ u) (put_new t k a hs))

  pub has-put_same : (t : Table A) (k : Text) (a : A) → has (put t k a) k ≡ true
  unfolding has put
  has-put_same [] k a = rw (text_eq_refl k) refl
  has-put_same ((j, b) ∷ t) k a = elim (Bool-cases (text_eq j k)) [
    | inl same ↦ rw (same, has, same) refl
    | inr other ↦ rw (other, has, other) (has-put_same t k a)
  ]

  -- What was there stays.
  pub has-put : (t : Table A) (k j : Text) (a : A) → has t j ≡ true → has (put t k a) j ≡ true
  unfolding has put
  has-put [] k j a h = absurd (ground (arith, h))
  has-put ((i, b) ∷ t) k j a h = elim (Bool-cases (text_eq i k)) [
    | inl same ↦ rw same h
    | inr other ↦ elim (Bool-cases (text_eq i j)) [
      | inl here ↦ rw (other, has, here) refl
      | inr later ↦ rw (other, has, later) (has-put t k j a (rw later at h))
    ]
  ]
