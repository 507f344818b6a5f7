-- ===== src/Prelude/Texts.antt =====
-- Texts as lists of UTF-16 code units, with the string methods that the scripts call. Case mapping
-- is that of ASCII; a code unit outside it is left as it is.
use Prim.Native.Nat.{ℕ, ◌+◌, ◌-◌}
use Prim.Native.Char.{code}
use Prim.Native.String.{String}
use mathlib.Core.Path.{◌≡◌, refl}
use mathlib.Core.Logic.{◌↔◌}
use mathlib.Core.Bool.{Bool, true, false, ◌&&◌, ◌||◌}
use mathlib.Core.List.{List, [], ◌∷◌, map, reverse}
use native.Mathlib.Omega.{arith}
use vinuchain_lists.Prelude.Tests.{leb, ◌==◌, if◌then◌else◌}

abbrev pub Text : Type 0
Text = List ℕ

-- The code units of an ASCII literal.
abbrev pub codes : String → Text
codes String.[] = []
codes (String.◌∷◌ c s) = code c ∷ codes s

-- `a === b`
unfoldable pub text_eq : Text → Text → Bool
text_eq [] [] = true
text_eq (a ∷ s) (b ∷ t) = (a == b) && text_eq s t
text_eq _ _ = false

pub text_eq→eq : (s t : Text) → text_eq s t ≡ true → s ≡ t
unfolding text_eq
text_eq→eq [] [] h = refl
text_eq→eq [] (b ∷ t) h = ground arith
text_eq→eq (a ∷ s) [] h = ground arith
text_eq→eq (a ∷ s) (b ∷ t) h = ground (arith, text_eq→eq s t)

pub text_eq_refl : (s : Text) → text_eq s s ≡ true
unfolding text_eq
text_eq_refl [] = refl
text_eq_refl (a ∷ s) = ground (arith, text_eq_refl s)

pub text_eq_iff : (s t : Text) → (text_eq s t ≡ true) ↔ (s ≡ t)
text_eq_iff s t = (text_eq→eq s t, λ e. rw e (text_eq_refl t))

-- `list.includes(t)`
unfoldable pub includes : List Text → Text → Bool
includes [] t = false
includes (s ∷ ss) t = text_eq s t || includes ss t

-- `t.startsWith(p)`
unfoldable pub starts_with : Text → Text → Bool
starts_with [] t = true
starts_with (a ∷ p) [] = false
starts_with (a ∷ p) (b ∷ t) = (a == b) && starts_with p t

-- `t.includes(p)`: `p` stands somewhere in `t`.
unfoldable pub contains : Text → Text → Bool
unfolding starts_with
contains p [] = starts_with p []
contains p (b ∷ t) = starts_with p (b ∷ t) || contains p t

pub lower_unit : ℕ → ℕ
lower_unit c = if leb b'A' c && leb c b'Z' then c + 32 else c

pub upper_unit : ℕ → ℕ
upper_unit c = if leb b'a' c && leb c b'z' then c - 32 else c

-- `t.toLowerCase()`
unfoldable pub to_lower : Text → Text
unfolding lower_unit
to_lower t = map lower_unit t

-- `t.toUpperCase()`
unfoldable pub to_upper : Text → Text
unfolding upper_unit
to_upper t = map upper_unit t

-- The white space of `\s` and of `trim` outside ASCII.
abbrev pub is_wide_space : ℕ → Bool
is_wide_space c =
    (c == 0xA0)
    || (c == 0x1680)
    || (leb 0x2000 c && leb c 0x200A)
    || (c == 0x2028)
    || (c == 0x2029)
    || (c == 0x202F)
    || (c == 0x205F)
    || (c == 0x3000)
    || (c == 0xFEFF)

-- `\s`: space, the controls from tab to carriage return, and those outside ASCII.
abbrev pub is_space : ℕ → Bool
is_space c = (c == 32) || (leb 9 c && leb c 13) || is_wide_space c

unfoldable pub trim_start : Text → Text
trim_start [] = []
trim_start (c ∷ t) = if is_space c then trim_start t else c ∷ t

-- `t.trim()`
unfoldable pub trim : Text → Text
unfolding trim_start
trim t = reverse (trim_start (reverse (trim_start t)))
