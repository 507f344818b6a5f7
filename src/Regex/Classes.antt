-- ===== src/Regex/Classes.antt =====
-- The languages of the expressions that the scripts write most: a fixed text, and code units of one
-- class.
use vinuchain_lists.Prelude.{
  ℕ, zero, suc, ◌≡◌, refl, ap, ◌∙◌, ◌↔◌, Bool, true, [], ◌∷◌, ◌++◌, Text, arith, length, All,
  ==_iff, ==-refl,
}
use vinuchain_lists.Regex.{any_text, matches_somewhere, Regex, unit, seq, star, text, times}
use vinuchain_lists.Regex.Laws.{matches_iff, Matches, nothing, one, both, stop, more, seq_inv}

abbrev pub Accepted : (ℕ → Bool) → ℕ → Type 0
Accepted p c = p c ≡ true

pub text_sound : (s : Text) {t : Text} → Matches (text s) t → t ≡ s
unfolding text
text_sound [] (nothing e) = e
text_sound (c ∷ s) (both u v (one d same e) n whole) =
    whole ∙ (ap (λ w. w ++ v) e ∙ cc ((==_iff d c).0 same, text_sound s n))

pub text_complete : (s : Text) → Matches (text s) s
unfolding text
text_complete [] = nothing refl
text_complete (c ∷ s) = both (c ∷ []) s (one c (==-refl c) refl) (text_complete s) refl

-- An expression that begins with a fixed text.
pub seq-text_iff :
    (s : Text) (r : Regex) (t : Text)
    → Matches (seq (text s) r) t ↔ ((u : Text) × (t ≡ s ++ u) × Matches r u)
seq-text_iff s r t = (
  λ whole. let (u, v, m, n, e) = seq_inv whole in (v, e ∙ ap (λ w. w ++ v) (text_sound s m), n),
  λ (u, e, n). both s u (text_complete s) n e,
)

module _ (p : ℕ → Bool) where
  times_sound :
      (n : ℕ) {t : Text} → Matches (times n (unit p)) t → (length t ≡ n) × All (Accepted p) t
  unfolding times
  times_sound zero (nothing e) = rw e (refl, tt)
  times_sound (suc n) (both u v (one c h e) m whole) =
      let (size, rest) = times_sound n m in rw (whole, e) (ap suc size, (h, rest))

  times_complete :
      (n : ℕ) (t : Text) → length t ≡ n → All (Accepted p) t → Matches (times n (unit p)) t
  unfolding times
  times_complete zero [] size h = nothing refl
  times_complete zero (c ∷ t) size h = absurd (omega (arith, size))
  times_complete (suc n) [] size h = absurd (omega (arith, size))
  times_complete (suc n) (c ∷ t) size (h, hs) =
      both (c ∷ []) t (one c h refl) (times_complete n t (omega (arith, size)) hs) refl

  -- `[...]{n}`
  pub times_iff :
      (n : ℕ) (t : Text) → Matches (times n (unit p)) t ↔ ((length t ≡ n) × All (Accepted p) t)
  times_iff n t = (times_sound n, λ (size, h). times_complete n t size h)

  star_sound : {t : Text} → Matches (star (unit p)) t → All (Accepted p) t
  star_sound (stop e) = rw e tt
  star_sound (more u v (one c h e) m whole) = rw (whole, e) (h, star_sound m)

  star_complete : (t : Text) → All (Accepted p) t → Matches (star (unit p)) t
  star_complete [] h = stop refl
  star_complete (c ∷ t) (h, hs) = more (c ∷ []) t (one c h refl) (star_complete t hs) refl

  -- `[...]*`
  pub star_iff : (t : Text) → Matches (star (unit p)) t ↔ All (Accepted p) t
  star_iff t = (star_sound, star_complete t)

  unit_inv : {t : Text} → Matches (unit p) t → (c : ℕ) × Accepted p c × (t ≡ c ∷ [])
  unit_inv (one c h e) = (c, h, e)

  -- `[...]` and an expression behind it.
  pub seq-unit_iff :
      (r : Regex) (t : Text)
      → Matches (seq (unit p) r) t
        ↔ ((c : ℕ) × (u : Text) × (t ≡ c ∷ u) × Accepted p c × Matches r u)
  seq-unit_iff r t = (
    λ whole.
        let (u, v, m, n, e) = seq_inv whole in
        let (c, h, alone) = unit_inv m in (c, v, e ∙ ap (λ w. w ++ v) alone, h, n),
    λ (c, u, e, h, n). both (c ∷ []) u (one c h refl) n e,
  )

any_text-All : (t : Text) → All (Accepted (λ c. true)) t
any_text-All [] = tt
any_text-All (c ∷ t) = (refl, any_text-All t)

any_text-Matches : (t : Text) → Matches any_text t
any_text-Matches t = star_complete (λ c. true) t (any_text-All t)

-- An expression that is looked for in the whole text.
pub somewhere_iff :
    (r : Regex) (t : Text)
    → (matches_somewhere r t ≡ true)
      ↔ ((u : Text) × (v : Text) × (w : Text) × (t ≡ u ++ (v ++ w)) × Matches r v)
somewhere_iff r t = (
  λ h.
      let (u, rest, _, m, e) = seq_inv ((matches_iff (seq any_text (seq r any_text)) t).0 h) in
      let (v, w, n, _, e₂) = seq_inv m in (u, v, w, e ∙ ap (λ x. u ++ x) e₂, n),
  λ (u, v, w, e, n).
      (matches_iff (seq any_text (seq r any_text)) t).1
        (both u (v ++ w) (any_text-Matches u) (both v w n (any_text-Matches w) refl) e),
)
