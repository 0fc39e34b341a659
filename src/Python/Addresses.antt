-- ===== src/Python/Addresses.antt =====
-- Text as code points, and socket addresses, compared as Python compares a `(str, int)` tuple.
use meet_your_match.Prelude.{
  ℕ, ◌≡◌, refl, ◌↔◌, ◌≢◌, Bool, true, false, ◌&&◌, List, [], ◌∷◌, arith, ◌==◌,
}

abbrev pub Text : Type 0
Text = List ℕ

pub record Address : Type 0 where
  pub ip : Text
  pub port : ℕ

unfoldable pub same_text : Text → Text → Bool
same_text [] [] = true
same_text [] (y ∷ ys) = false
same_text (x ∷ xs) [] = false
same_text (x ∷ xs) (y ∷ ys) = x == y && same_text xs ys

pub same_text_refl : (s : Text) → same_text s s ≡ true
unfolding same_text
same_text_refl [] = refl
same_text_refl (x ∷ xs) = ground (arith, same_text_refl xs)

pub same_text→eq : (s t : Text) → same_text s t ≡ true → s ≡ t
unfolding same_text
same_text→eq [] [] h = refl
same_text→eq [] (y ∷ ys) h = cc
same_text→eq (x ∷ xs) [] h = cc
same_text→eq (x ∷ xs) (y ∷ ys) h = ground (arith, same_text→eq xs ys)

unfoldable pub same_address : Address → Address → Bool
unfolding same_text
same_address a b = same_text a.ip b.ip && a.port == b.port

pub same_address_refl : (a : Address) → same_address a a ≡ true
unfolding same_address
same_address_refl a = ground (arith, same_text_refl a.ip)

same_address→eq : (a b : Address) → same_address a b ≡ true → a ≡ b
unfolding same_address
same_address→eq a b h = ground (arith, same_text→eq a.ip b.ip)

pub same_address_iff : (a b : Address) → (same_address a b ≡ true) ↔ (a ≡ b)
same_address_iff a b = (same_address→eq a b, λ e. ground (arith, same_address_refl a))

pub same_address_ne : (a b : Address) → a ≢ b → same_address a b ≡ false
same_address_ne a b h = ground (arith, same_address_iff a b)
