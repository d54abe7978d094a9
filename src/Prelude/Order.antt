-- ===== src/Prelude/Order.antt =====
-- The order of keys: the lexicographic order of byte strings, as slices are compared.
use artmap.Prelude.Tests.{◌==◌, ltb, if◌then◌else◌}
use artmap.Prelude.Bytes.{Key, bytes_eq}
use Prim.Native.Nat.{ℕ, ◌<◌}
use mathlib.Core.Path.{◌≡◌, refl}
use mathlib.Core.Bool.{Bool, true, false}
use mathlib.Core.List.{[], ◌∷◌, ◌++◌}
use native.Mathlib.Omega.{arith}

-- `a < b` on byte slices
unfoldable pub key_lt : Key → Key → Bool
key_lt a [] = false
key_lt [] (y ∷ b) = true
key_lt (x ∷ a) (y ∷ b) = let rest = key_lt a b in if x == y then rest else ltb x y

pub key_lt_irrefl : (a : Key) → key_lt a a ≡ false
unfolding key_lt
key_lt_irrefl [] = refl
key_lt_irrefl (x ∷ a) = ground (arith, key_lt_irrefl a)

pub key_lt_trans : (a b c : Key) → key_lt a b ≡ true → key_lt b c ≡ true → key_lt a c ≡ true
unfolding key_lt
key_lt_trans a [] c h g = cc
key_lt_trans a (y ∷ b) [] h g = cc
key_lt_trans [] (y ∷ b) (z ∷ c) h g = refl
key_lt_trans (x ∷ a) (y ∷ b) (z ∷ c) h g = ground (arith, key_lt_trans a b c)

pub key_lt-bytes_eq : (a b : Key) → key_lt a b ≡ true → bytes_eq a b ≡ false
unfolding key_lt bytes_eq
key_lt-bytes_eq a [] h = cc
key_lt-bytes_eq [] (y ∷ b) h = refl
key_lt-bytes_eq (x ∷ a) (y ∷ b) h = ground (arith, key_lt-bytes_eq a b)

pub key_lt_total : (a b : Key) → key_lt a b ≡ false → bytes_eq a b ≡ false → key_lt b a ≡ true
unfolding key_lt bytes_eq
key_lt_total [] [] h g = cc
key_lt_total (x ∷ a) [] h g = refl
key_lt_total [] (y ∷ b) h g = cc
key_lt_total (x ∷ a) (y ∷ b) h g = ground (arith, key_lt_total a b)

pub key_lt-append : (p a b : Key) → key_lt (p ++ a) (p ++ b) ≡ key_lt a b
unfolding key_lt
key_lt-append [] a b = refl
key_lt-append (x ∷ p) a b = ground (arith, key_lt-append p a b)

pub key_lt-bytes : (x y : ℕ) (a b : Key) → x < y → key_lt (x ∷ a) (y ∷ b) ≡ true
unfolding key_lt
key_lt-bytes x y a b h = ground arith

pub key_lt-longer : (y : ℕ) (b : Key) → key_lt [] (y ∷ b) ≡ true
unfolding key_lt
key_lt-longer y b = refl
