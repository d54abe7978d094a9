-- ===== src/Prelude/Bytes.antt =====
-- Byte strings: equality, prefixes and the longest common prefix (src/raw/mod.rs, src/raw/node.rs).
use artmap.Prelude.Tests.{◌==◌, if◌then◌else◌}
use artmap.Prelude.Lists.{length, take, drop}
use Prim.Native.Nat.{ℕ, suc, ◌≤◌, ◌<◌}
use mathlib.Core.Path.{◌≡◌, refl}
use mathlib.Core.Logic.{◌≢◌}
use mathlib.Core.Bool.{Bool, true, false, ◌&&◌}
use mathlib.Core.List.{List, [], ◌∷◌, ◌++◌}
use native.Mathlib.Omega.{arith}

abbrev pub Key : Type 0
Key = List ℕ

-- `a == b` on byte slices
unfoldable pub bytes_eq : Key → Key → Bool
bytes_eq [] [] = true
bytes_eq [] (y ∷ ys) = false
bytes_eq (x ∷ xs) [] = false
bytes_eq (x ∷ xs) (y ∷ ys) = x == y && bytes_eq xs ys

-- Whether the prefix of a node starts the rest of the key.
unfoldable pub is_prefix_of : Key → Key → Bool
is_prefix_of [] rest = true
is_prefix_of (x ∷ p) [] = false
is_prefix_of (x ∷ p) (y ∷ rest) = x == y && is_prefix_of p rest

-- Longest common prefix of two byte strings.
unfoldable pub common_prefix : Key → Key → ℕ
common_prefix [] b = 0
common_prefix (x ∷ a) [] = 0
common_prefix (x ∷ a) (y ∷ b) = let rest = common_prefix a b in if x == y then suc rest else 0

pub bytes_eq_refl : (a : Key) → bytes_eq a a ≡ true
unfolding bytes_eq
bytes_eq_refl [] = refl
bytes_eq_refl (x ∷ a) = ground (arith, bytes_eq_refl a)

pub bytes_eq_sound : (a b : Key) → bytes_eq a b ≡ true → a ≡ b
unfolding bytes_eq
bytes_eq_sound [] [] h = refl
bytes_eq_sound [] (y ∷ b) h = cc
bytes_eq_sound (x ∷ a) [] h = cc
bytes_eq_sound (x ∷ a) (y ∷ b) h = ground (arith, bytes_eq_sound a b)

pub bytes_eq-append : (p a b : Key) → bytes_eq (p ++ a) (p ++ b) ≡ bytes_eq a b
unfolding bytes_eq
bytes_eq-append [] a b = refl
bytes_eq-append (x ∷ p) a b = ground (arith, bytes_eq-append p a b)

pub bytes_eq_comm : (a b : Key) → bytes_eq a b ≡ bytes_eq b a
unfolding bytes_eq
bytes_eq_comm [] [] = refl
bytes_eq_comm [] (y ∷ b) = refl
bytes_eq_comm (x ∷ a) [] = refl
bytes_eq_comm (x ∷ a) (y ∷ b) = ground (arith, bytes_eq_comm a b)

pub is_prefix_of-append : (p r : Key) → is_prefix_of p (p ++ r) ≡ true
unfolding is_prefix_of
is_prefix_of-append [] r = refl
is_prefix_of-append (x ∷ p) r = ground (arith, is_prefix_of-append p r)

-- The test finds exactly the byte strings that continue the prefix.
pub is_prefix_of_sound : (p r : Key) → is_prefix_of p r ≡ true → r ≡ p ++ drop (length p) r
unfolding is_prefix_of
is_prefix_of_sound [] r h = refl
is_prefix_of_sound (x ∷ p) [] h = cc
is_prefix_of_sound (x ∷ p) (y ∷ r) h = ground (arith, is_prefix_of_sound p r)

-- A prefix in two parts is tested part by part.
pub is_prefix_of_parts :
    (a b r : Key) → is_prefix_of (a ++ b) r ≡ is_prefix_of a r && is_prefix_of b (drop (length a) r)
unfolding is_prefix_of
is_prefix_of_parts [] b r = refl
is_prefix_of_parts (x ∷ a) b [] = refl
is_prefix_of_parts (x ∷ a) b (y ∷ r) = ground (arith, is_prefix_of_parts a b r)

pub common_prefix-le : (a b : Key) → (common_prefix a b ≤ length a) × (common_prefix a b ≤ length b)
unfolding common_prefix
common_prefix-le [] b = omega arith
common_prefix-le (x ∷ a) [] = omega arith
common_prefix-le (x ∷ a) (y ∷ b) = ground (arith, common_prefix-le a b)

pub take-common_prefix : (a b : Key) → take (common_prefix a b) a ≡ take (common_prefix a b) b
unfolding common_prefix
take-common_prefix [] b = refl
take-common_prefix (x ∷ a) [] = refl
take-common_prefix (x ∷ a) (y ∷ b) = ground (arith, take-common_prefix a b)

-- Behind the common prefix, two byte strings part, or one of them ends.
abbrev pub Diverge : Key → Key → Type 0
Diverge [] b = Unit
Diverge (x ∷ a) [] = Unit
Diverge (x ∷ a) (y ∷ b) = x ≢ y

pub common_prefix-Diverge :
    (a b : Key) → Diverge (drop (common_prefix a b) a) (drop (common_prefix a b) b)
unfolding common_prefix
common_prefix-Diverge [] b = tt
common_prefix-Diverge (x ∷ a) [] = tt
common_prefix-Diverge (x ∷ a) (y ∷ b) = ground (arith, common_prefix-Diverge a b)

-- A prefix that is not found is left at a byte of its own.
pub common_prefix-lt_length : (p r : Key) → is_prefix_of p r ≡ false → common_prefix p r < length p
unfolding is_prefix_of common_prefix
common_prefix-lt_length [] r h = cc
common_prefix-lt_length (x ∷ p) [] h = omega arith
common_prefix-lt_length (x ∷ p) (y ∷ r) h = ground (arith, common_prefix-lt_length p r)
