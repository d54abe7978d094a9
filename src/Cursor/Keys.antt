-- ===== src/Cursor/Keys.antt =====
-- `cmp_keys` of src/raw/cursor.rs, and the comparison of slices.
use artmap.Prelude.{
  and_left, and_right, ℕ, zero, suc, ◌+◌, ◌*◌, ◌<◌, ◌≡◌, ◌⊎◌, refl, ap, sym, ◌∙◌, Bool, true, false,
  ◌&&◌, not, ==_refl, inl, inr, [], ◌∷◌, ◌++◌, length, take, drop, leb, ltb, ◌==◌, if◌then◌else◌,
  Bool-cases, min, take-append-drop, length-take, arith,
}
use native.Mathlib.Nat.{suc-mul}
use artmap.Prelude.Bytes.{Key}
use artmap.Prelude.Order.{key_lt}
use artmap.Tree.Wf.{IsBytes, IsBytes-drop, IsBytes-take}

pub data Ordering : Type 0 where
  less equal greater : Ordering

abbrev pub is_ge : Ordering → Bool
is_ge less = false
is_ge _ = true

abbrev pub is_gt : Ordering → Bool
is_gt greater = true
is_gt _ = false

abbrev pub is_le : Ordering → Bool
is_le greater = false
is_le _ = true

abbrev pub is_lt : Ordering → Bool
is_lt less = true
is_lt _ = false

-- `cmp` of machine words
abbrev pub cmp : ℕ → ℕ → Ordering
cmp x y = if x == y then equal else if ltb x y then less else greater

-- the first difference decides
abbrev then_with : Ordering → Ordering → Ordering
then_with equal o = o
then_with o _ = o

-- The comparison of byte slices: the first byte that differs, and then the lengths.
unfoldable pub cmp_slices : Key → Key → Ordering
cmp_slices [] [] = equal
cmp_slices [] (y ∷ b) = less
cmp_slices (x ∷ a) [] = greater
cmp_slices (x ∷ a) (y ∷ b) = then_with (cmp x y) (cmp_slices a b)

-- the value of bytes, the most significant one first, and the number of values of as many bytes
abbrev place : Key → ℕ
place [] = 1
place (x ∷ a) = 256 * place a

unfoldable pub from_be_bytes : Key → ℕ
from_be_bytes [] = 0
from_be_bytes (x ∷ a) = x * place a + from_be_bytes a

-- byte by byte, up to the end of one of them
unfoldable pub cmp_bytes : Key → Key → Ordering
cmp_bytes (x ∷ a) (y ∷ b) = if x == y then cmp_bytes a b else cmp x y
cmp_bytes [] b = cmp 0 (length b)
cmp_bytes (x ∷ a) [] = cmp (suc (length a)) 0

-- Eight bytes at a time, and then byte by byte. A key has at most `fuel` chunks.
unfoldable pub cmp_chunks : ℕ → Key → Key → Ordering
unfolding cmp_bytes from_be_bytes
cmp_chunks zero a b = cmp_bytes a b
cmp_chunks (suc fuel) a b =
    let rest = cmp_chunks fuel (drop 8 a) (drop 8 b) in
    let x = from_be_bytes (take 8 a) in
    let y = from_be_bytes (take 8 b) in
    if leb 8 (length a) && leb 8 (length b) then if x == y then rest else cmp x y else cmp_bytes a b

-- Keys of more than 64 bytes are compared by the library.
unfoldable pub cmp_keys : Key → Key → Ordering
unfolding cmp_chunks cmp_slices
cmp_keys a b = if ltb 64 (min (length a) (length b)) then cmp_slices a b else cmp_chunks 8 a b

trichotomy : (i j : ℕ) → (i ≡ j) ⊎ (i < j) ⊎ (j < i)
trichotomy i j = ground arith

cmp-less : (i j : ℕ) → i < j → cmp i j ≡ less
cmp-less i j h = ground arith

cmp-greater : (i j : ℕ) → j < i → cmp i j ≡ greater
cmp-greater i j h = ground arith

decided : (i j : ℕ) (o : Ordering) → (if i == j then o else cmp i j) ≡ then_with (cmp i j) o
decided i j o = elim (trichotomy i j) [
  | inl e ↦ rw (e, ==_refl j) refl
  | inr (inl lt) ↦ other less (ground arith) (cmp-less i j lt) refl
  | inr (inr gt) ↦ other greater (ground arith) (cmp-greater i j gt) refl
]
  where
    other :
        (q : Ordering)
        → (i == j) ≡ false
        → cmp i j ≡ q
        → then_with q o ≡ q
        → (if i == j then o else cmp i j) ≡ then_with (cmp i j) o
    other q h e f =
        ap (λ t. if t then o else cmp i j) h ∙ e ∙ sym f ∙ ap (λ t. then_with t o) (sym e)

cmp_bytes-slices : (a b : Key) → cmp_bytes a b ≡ cmp_slices a b
unfolding cmp_bytes cmp_slices
cmp_bytes-slices [] [] = refl
cmp_bytes-slices [] (y ∷ b) = ground arith
cmp_bytes-slices (x ∷ a) [] = ground arith
cmp_bytes-slices (x ∷ a) (y ∷ b) =
    ap (λ o. if x == y then o else cmp x y) (cmp_bytes-slices a b) ∙ decided x y (cmp_slices a b)

times_lt : (i j p : ℕ) → i < j → i * p + p < suc (j * p)
times_lt i zero p h = absurd (omega arith)
times_lt zero (suc j) p h = omega (arith, suc-mul j p)
times_lt (suc i) (suc j) p h = omega (arith, suc-mul j p, suc-mul i p, times_lt i j p (omega arith))

from_be_bytes-lt : (a : Key) → IsBytes a → from_be_bytes a < place a
unfolding from_be_bytes
from_be_bytes-lt [] w = omega arith
from_be_bytes-lt (x ∷ a) w = digit x (place a) (from_be_bytes a) w.0 (from_be_bytes-lt a w.1)
  where
    digit : (i p u : ℕ) → i < 256 → u < p → i * p + u < 256 * p
    digit i p u h g = omega (arith, times_lt i 256 p h)

-- Numbers of as many digits compare by their first digits first.
cmp-digits :
    (i j p u v : ℕ) → u < p → v < p → cmp (i * p + u) (j * p + v) ≡ then_with (cmp i j) (cmp u v)
cmp-digits i j p u v h g = elim (trichotomy i j) [
  | inl e ↦ rw (e, ==_refl j) (same_offset (j * p) u v)
  | inr (inl lt) ↦
      let q = times_lt i j p lt in
      rw (cmp-less i j lt) (cmp-less (i * p + u) (j * p + v) (omega (arith, q)))
  | inr (inr gt) ↦
      let q = times_lt j i p gt in
      rw (cmp-greater i j gt) (cmp-greater (i * p + u) (j * p + v) (omega (arith, q)))
]
  where
    same_offset : (k a b : ℕ) → cmp (k + a) (k + b) ≡ cmp a b
    same_offset k a b = elim (trichotomy a b) [
      | inl e ↦ rw (e, ==_refl b, ==_refl (k + b)) refl
      | inr (inl lt) ↦ rw (cmp-less a b lt) (cmp-less (k + a) (k + b) (omega arith))
      | inr (inr gt) ↦ rw (cmp-greater a b gt) (cmp-greater (k + a) (k + b) (omega arith))
    ]

place-length : (a b : Key) → length a ≡ length b → place a ≡ place b
place-length [] [] h = refl
place-length [] (y ∷ b) h = absurd (omega (arith, h))
place-length (x ∷ a) [] h = absurd (omega (arith, h))
place-length (x ∷ a) (y ∷ b) h = ap (λ n. 256 * n) (place-length a b (omega (arith, h)))

-- Chunks of one length compare as their values do.
from_be_bytes-cmp :
    (a b : Key)
    → length a ≡ length b
    → IsBytes a
    → IsBytes b
    → cmp (from_be_bytes a) (from_be_bytes b) ≡ cmp_slices a b
unfolding from_be_bytes cmp_slices
from_be_bytes-cmp [] [] h v w = refl
from_be_bytes-cmp [] (y ∷ b) h v w = absurd (omega (arith, h))
from_be_bytes-cmp (x ∷ a) [] h v w = absurd (omega (arith, h))
from_be_bytes-cmp (x ∷ a) (y ∷ b) h v w =
    let e = place-length a b (omega (arith, h)) in
    ap (λ n. cmp (x * n + from_be_bytes a) (y * place b + from_be_bytes b)) e
    ∙ cmp-digits x y (place b) (from_be_bytes a) (from_be_bytes b)
        (omega (arith, from_be_bytes-lt a v.1, e)) (from_be_bytes-lt b w.1)
    ∙ ap (then_with (cmp x y)) (from_be_bytes-cmp a b (omega (arith, h)) v.1 w.1)

then_with_assoc : (o p q : Ordering) → then_with (then_with o p) q ≡ then_with o (then_with p q)
then_with_assoc less p q = refl
then_with_assoc equal p q = refl
then_with_assoc greater p q = refl

cmp_slices-append :
    (a b r s : Key)
    → length a ≡ length b
    → cmp_slices (a ++ r) (b ++ s) ≡ then_with (cmp_slices a b) (cmp_slices r s)
unfolding cmp_slices
cmp_slices-append [] [] r s h = refl
cmp_slices-append [] (y ∷ b) r s h = absurd (omega (arith, h))
cmp_slices-append (x ∷ a) [] r s h = absurd (omega (arith, h))
cmp_slices-append (x ∷ a) (y ∷ b) r s h =
    ap (then_with (cmp x y)) (cmp_slices-append a b r s (omega (arith, h)))
    ∙ sym (then_with_assoc (cmp x y) (cmp_slices a b) (cmp_slices r s))

at_least : (a : Key) → leb 8 (length a) ≡ true → length (take 8 a) ≡ 8
at_least a h = length-take 8 a ∙ ground arith

cmp_chunks-slices :
    (fuel : ℕ) (a b : Key) → IsBytes a → IsBytes b → cmp_chunks fuel a b ≡ cmp_slices a b
unfolding cmp_chunks
cmp_chunks-slices zero a b v w = cmp_bytes-slices a b
cmp_chunks-slices (suc fuel) a b v w = elim (Bool-cases (leb 8 (length a) && leb 8 (length b))) [
  | inr short ↦ rw short (cmp_bytes-slices a b)
  | inl long ↦ rw long (
      let ha = at_least a (and_left (leb 8 (length a)) (leb 8 (length b)) long) in
      let hb = at_least b (and_right (leb 8 (length a)) (leb 8 (length b)) long) in
      decided (from_be_bytes (take 8 a)) (from_be_bytes (take 8 b))
        (cmp_chunks fuel (drop 8 a) (drop 8 b))
      ∙ ap (λ o. then_with o (cmp_chunks fuel (drop 8 a) (drop 8 b)))
          (from_be_bytes-cmp (take 8 a) (take 8 b) (ha ∙ sym hb) (IsBytes-take 8 a v)
            (IsBytes-take 8 b w))
      ∙ ap (then_with (cmp_slices (take 8 a) (take 8 b)))
          (cmp_chunks-slices fuel (drop 8 a) (drop 8 b) (IsBytes-drop 8 a v) (IsBytes-drop 8 b w))
      ∙ sym (cmp_slices-append (take 8 a) (take 8 b) (drop 8 a) (drop 8 b) (ha ∙ sym hb))
      ∙ ap (λ k. cmp_slices k (take 8 b ++ drop 8 b)) (take-append-drop 8 a)
      ∙ ap (cmp_slices a) (take-append-drop 8 b))
]

-- For keys made of bytes, the comparison by big-endian chunks of eight bytes is the comparison of
-- the byte slices.
pub cmp_keys-slices : (a b : Key) → IsBytes a → IsBytes b → cmp_keys a b ≡ cmp_slices a b
unfolding cmp_keys
cmp_keys-slices a b v w = elim (Bool-cases (ltb 64 (min (length a) (length b)))) [
  | inl long ↦ rw long refl
  | inr short ↦ rw short (cmp_chunks-slices 8 a b v w)
]

pub cmp_slices-lt : (a b : Key) → is_lt (cmp_slices a b) ≡ key_lt a b
unfolding cmp_slices key_lt
cmp_slices-lt [] [] = refl
cmp_slices-lt [] (y ∷ b) = refl
cmp_slices-lt (x ∷ a) [] = refl
cmp_slices-lt (x ∷ a) (y ∷ b) = ground (arith, cmp_slices-lt a b)

pub cmp_slices-gt : (a b : Key) → is_gt (cmp_slices a b) ≡ key_lt b a
unfolding cmp_slices key_lt
cmp_slices-gt [] [] = refl
cmp_slices-gt [] (y ∷ b) = refl
cmp_slices-gt (x ∷ a) [] = refl
cmp_slices-gt (x ∷ a) (y ∷ b) = ground (arith, cmp_slices-gt a b)

pub is_ge-lt : (o : Ordering) → is_ge o ≡ not (is_lt o)
is_ge-lt less = refl
is_ge-lt equal = refl
is_ge-lt greater = refl

pub is_le-gt : (o : Ordering) → is_le o ≡ not (is_gt o)
is_le-gt less = refl
is_le-gt equal = refl
is_le-gt greater = refl
