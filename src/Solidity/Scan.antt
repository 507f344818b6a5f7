-- ===== src/Solidity/Scan.antt =====
-- The version in a pragma: the group of the expression, and where the expression matches.
use mathlib.Core.List.{append_assoc, append-nil}
use vinuchain_lists.Prelude.{
  ℕ, ◌≡◌, refl, sym, ap, ◌∙◌, inl, inr, Bool, true, false, not, some, [], ◌∷◌, ◌++◌, Text, codes,
  ◌==◌, ==-refl, is_space, All, All-append, All-map, arith, Option-cases,
}
use vinuchain_lists.Regex.{plus, unit, matches_somewhere}
use vinuchain_lists.Regex.Laws.{Matches, seq_inv}
use vinuchain_lists.Regex.Classes.{
  Accepted, text_sound, seq-text_iff, seq-unit_iff, star_iff, somewhere_iff,
}
use vinuchain_lists.Solidity.{
  pragma_pattern, strip_text, skip_spaces, before_semicolon, nonempty, version_here, or_later,
  version_of,
}

strip_text-append : (p u : Text) → strip_text p (p ++ u) ≡ some u
unfolding strip_text
strip_text-append [] u = refl
strip_text-append (a ∷ p) u = rw (==-refl a) (strip_text-append p u)

skip_spaces-append :
    (s : Text) (c : ℕ) (u : Text)
    → All (Accepted is_space) s
    → is_space c ≡ false
    → skip_spaces (s ++ c ∷ u) ≡ c ∷ u
unfolding skip_spaces
skip_spaces-append [] c u h plain = rw plain refl
skip_spaces-append (d ∷ s) c u (h, hs) plain = rw h (skip_spaces-append s c u hs plain)

abbrev NoSemicolon : ℕ → Type 0
NoSemicolon c = not (c == b';') ≡ true

space-NoSemicolon : (c : ℕ) → Accepted is_space c → NoSemicolon c
space-NoSemicolon c h = ground (arith, h)

before_semicolon-append :
    (seen s w : Text) → All NoSemicolon s → before_semicolon seen (s ++ b';' ∷ w) ≡ some (seen ++ s)
unfolding before_semicolon
before_semicolon-append seen [] w h = rw append-nil refl
before_semicolon-append seen (c ∷ s) w (h, hs) =
    let other : (c == b';') ≡ false = ground (arith, h) in
    rw other
      (before_semicolon-append (seen ++ c ∷ []) s w hs ∙ ap some (append_assoc seen (c ∷ []) s))

plus_inv :
    (p : ℕ → Bool) (t : Text)
    → Matches (plus (unit p)) t
    → (c : ℕ) × (s : Text) × (t ≡ c ∷ s) × Accepted p c × All (Accepted p) s
plus_inv p t m = let (c, s, e, h, n) = (seq-unit_iff p _ t).0 m in (c, s, e, h, (star_iff p s).0 n)

-- The parts of a pragma.
record Pragma (v : Text) : Type 0 where
  first : ℕ
  second : ℕ
  spaces : Text
  more : Text
  body : Text
  begins : ℕ
  first_space : Accepted is_space first
  second_space : Accepted is_space second
  all_spaces : All (Accepted is_space) spaces
  all_more : All (Accepted is_space) more
  begins_plain : NoSemicolon begins
  body_plain : All NoSemicolon body
  whole :
      v
      ≡ codes "pragma"
        ++ ((first ∷ spaces)
            ++ (codes "solidity" ++ ((second ∷ more) ++ ((begins ∷ body) ++ codes ";"))))

Pragma-parts : (v : Text) → Matches pragma_pattern v → Pragma v
Pragma-parts v m =
    let (v₁, e₁, m₁) = (seq-text_iff (codes "pragma") _ v).0 m in
    let (s₁, v₂, spaces, m₂, e₂) = seq_inv m₁ in
    let (c, s, e₃, hc, hs) = plus_inv is_space s₁ spaces in
    let (v₃, e₄, m₃) = (seq-text_iff (codes "solidity") _ v₂).0 m₂ in
    let (s₂, v₄, spaces₂, m₄, e₅) = seq_inv m₃ in
    let (d, r, e₆, hd, hr) = plus_inv is_space s₂ spaces₂ in
    let (body, last, body_part, semicolon, e₇) = seq_inv m₄ in
    let (f, b, e₈, hf, hb) = plus_inv (λ c. not (c == b';')) body body_part in
    let from₄ : v₄ ≡ (f ∷ b) ++ codes ";" = e₇ ∙ cc (e₈, text_sound (codes ";") semicolon) in
    let from₃ : v₃ ≡ (d ∷ r) ++ v₄ = e₅ ∙ ap (λ x. x ++ v₄) e₆ in
    let from₁ : v₁ ≡ (c ∷ s) ++ v₂ = e₂ ∙ ap (λ x. x ++ v₂) e₃ in
    record {
      first = c;
      second = d;
      spaces = s;
      more = r;
      body = b;
      begins = f;
      first_space = hc;
      second_space = hd;
      all_spaces = hs;
      all_more = hr;
      begins_plain = hf;
      body_plain = hb;
      whole = cc (e₁, from₁, e₄, from₃, from₄);
    }

version_shape :
    (c d f : ℕ) (s r b w : Text)
    → Accepted is_space c
    → Accepted is_space d
    → All (Accepted is_space) s
    → All (Accepted is_space) r
    → NoSemicolon f
    → All NoSemicolon b
    → version_here
        (codes "pragma" ++ (c ∷ (s ++ (codes "solidity" ++ (d ∷ (r ++ (f ∷ (b ++ (b';' ∷ w)))))))))
      ≡ nonempty (some (r ++ f ∷ b))
unfolding version_here
version_shape c d f s r b w hc hd hs hr hf hb =
    let group =
      before_semicolon-append [] (r ++ f ∷ b) w
        (All-append NoSemicolon r (f ∷ b) (All-map space-NoSemicolon r hr) (hf, hb)) in
    let joined : (r ++ f ∷ b) ++ (b';' ∷ w) ≡ r ++ (f ∷ (b ++ (b';' ∷ w))) =
      append_assoc r (f ∷ b) (b';' ∷ w) in
    rw
      (
        version_here,
        hc,
        skip_spaces-append s b's' (codes "olidity" ++ (d ∷ (r ++ (f ∷ (b ++ (b';' ∷ w)))))) hs refl,
        hd,
        ap (before_semicolon []) (sym joined) ∙ group,
      )
      refl

nonempty-append : (r b : Text) (f : ℕ) → (g : Text) × (nonempty (some (r ++ f ∷ b)) ≡ some g)
unfolding nonempty
nonempty-append [] b f = (f ∷ b, refl)
nonempty-append (c ∷ r) b f = (c ∷ (r ++ f ∷ b), refl)

-- Where a pragma stands, a version is found.
version_here-pragma :
    (v w : Text) → Matches pragma_pattern v → (g : Text) × (version_here (v ++ w) ≡ some g)
version_here-pragma v w m =
    let p = Pragma-parts v m in
    let (g, found) = nonempty-append p.more p.body p.begins in
    let shape =
      version_shape p.first p.second p.begins p.spaces p.more p.body w p.first_space p.second_space
        p.all_spaces p.all_more p.begins_plain p.body_plain in
    (
      g,
      ap (λ x. version_here (x ++ w)) p.whole
          ∙ (ap version_here (simp append_assoc) ∙ (shape ∙ found)),
    )

version_of-append :
    (u t : Text) (g : Text) → version_here t ≡ some g → (h : Text) × (version_of (u ++ t) ≡ some h)
unfolding version_of or_later
version_of-append [] [] g e = (g, e)
version_of-append [] (c ∷ t) g e = (g, rw e refl)
version_of-append (c ∷ u) t g e =
    let (h, later) = version_of-append u t g e in
    elim (Option-cases (version_here (c ∷ (u ++ t)))) [
      | inl absent ↦ (h, rw absent later)
      | inr (k, here) ↦ (k, rw here refl)
    ]

-- Where the test of the pragma passes, the match that reads the version does not fail.
pub version_of-pragma :
    (content : Text)
    → matches_somewhere pragma_pattern content ≡ true
    → (g : Text) × (version_of content ≡ some g)
version_of-pragma content h =
    let (u, v, w, e, m) = (somewhere_iff pragma_pattern content).0 h in
    let (g, here) = version_here-pragma v w m in
    let (k, found) = version_of-append u (v ++ w) g here in (k, ap version_of e ∙ found)
