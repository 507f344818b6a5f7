-- ===== src/Registry/Keys.antt =====
-- `chainAddressKey`: the keys of the tables.
use vinuchain_lists.Prelude.{ℕ, ◌≡◌, ◌≢◌, refl, sym, [], ◌∷◌, ◌++◌, Text, All}
use vinuchain_lists.Numbers.{decimal}
use vinuchain_lists.Numbers.Decimal.{decimal-colon, decimal_injective}
use vinuchain_lists.Registry.{chain_address_key}

cons_injective : {c d : ℕ} {s t : Text} → c ∷ s ≡ d ∷ t → (c ≡ d) × (s ≡ t)
cons_injective h = (cc h, cc h)

-- Texts are the same before and after their first colon.
split_colon :
    (s t u v : Text)
    → All (λ c. c ≢ b':') s
    → All (λ c. c ≢ b':') t
    → s ++ b':' ∷ u ≡ t ++ b':' ∷ v
    → (s ≡ t) × (u ≡ v)
split_colon [] [] u v hs ht h = (refl, (cons_injective h).1)
split_colon [] (d ∷ t) u v hs (hd, ht) h = absurd (hd (sym ((cons_injective h).0)))
split_colon (c ∷ s) [] u v (hc, hs) ht h = absurd (hc ((cons_injective h).0))
split_colon (c ∷ s) (d ∷ t) u v (hc, hs) (hd, ht) h =
    let (first, rest) = cons_injective h in
    let (same, after) = split_colon s t u v hs ht rest in (cc (first, same), after)

-- A key determines its chain and its address.
pub chain_address_key_injective :
    (c d : ℕ) (a b : Text) → chain_address_key c a ≡ chain_address_key d b → (c ≡ d) × (a ≡ b)
unfolding chain_address_key
chain_address_key_injective c d a b h =
    let (digits, address) =
      split_colon (decimal c) (decimal d) a b (decimal-colon c) (decimal-colon d) h in
    (decimal_injective c d digits, address)
