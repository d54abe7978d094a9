-- ===== src/Cursor/Bounds.antt =====
-- The bounds of a range, as tests on keys, and the leaves in order of a direction.
use artmap.Prelude.{◌≡◌, refl, ap, sym, ◌∙◌, Bool, true, false, ◌||◌, not, inl, inr, Bool-cases}
use mathlib.Core.Bool.{false≢true}
use artmap.Prelude.Bytes.{Key, bytes_eq, bytes_eq_comm}
use artmap.Prelude.Order.{key_lt, key_lt_trans, key_lt-bytes_eq, key_lt_total}
use artmap.Tree.Wf.{IsBytes}
use artmap.Cursor.{Bound, included, excluded, unbounded, Dir, forward, backward, past}
use artmap.Cursor.Keys.{
  cmp_keys-slices, cmp_slices-lt, cmp_slices-gt, is_ge-lt, is_le-gt, is_lt, is_gt, is_ge, is_le,
}
use artmap.Cursor.Sides.{above_start, below_end}
use artmap.Cursor.Keeps.{asym}

abbrev pub BoundBytes : Bound → Type 0
BoundBytes (included k) = IsBytes k
BoundBytes (excluded k) = IsBytes k
BoundBytes unbounded = Unit

-- the near bound and the far bound of a direction
abbrev pub near_test : Dir → Bound → Key → Bool
near_test forward b k = above_start k b
near_test backward b k = below_end k b

abbrev pub far_test : Dir → Bound → Key → Bool
far_test forward b k = below_end k b
far_test backward b k = above_start k b

at_or_past : (b k : Key) → (key_lt b k || bytes_eq k b) ≡ not (key_lt k b)
at_or_past b k = elim (Bool-cases (key_lt k b)) [
  | inl hit ↦ rw (hit, asym k b hit, key_lt-bytes_eq k b hit) refl
  | inr miss ↦ elim (Bool-cases (bytes_eq k b)) [
    | inl same ↦ rw (miss, same) (or_true (key_lt b k))
    | inr other ↦ rw (miss, other, key_lt_total k b miss other) refl
  ]
]
  where
    or_true : (t : Bool) → (t || true) ≡ true
    or_true true = refl
    or_true false = refl

or_false : (t : Bool) → (t || false) ≡ t
or_false true = refl
or_false false = refl

above-included : (k b : Key) → IsBytes k → IsBytes b → above_start k (included b) ≡ not (key_lt k b)
unfolding above_start
above-included k b v w =
    ap is_ge (cmp_keys-slices k b v w) ∙ is_ge-lt _ ∙ ap not (cmp_slices-lt k b)

above-excluded : (k b : Key) → IsBytes k → IsBytes b → above_start k (excluded b) ≡ key_lt b k
unfolding above_start
above-excluded k b v w = ap is_gt (cmp_keys-slices k b v w) ∙ cmp_slices-gt k b

below-included : (k b : Key) → IsBytes k → IsBytes b → below_end k (included b) ≡ not (key_lt b k)
unfolding below_end
below-included k b v w =
    ap is_le (cmp_keys-slices k b v w) ∙ is_le-gt _ ∙ ap not (cmp_slices-gt k b)

below-excluded : (k b : Key) → IsBytes k → IsBytes b → below_end k (excluded b) ≡ key_lt k b
unfolding below_end
below-excluded k b v w = ap is_lt (cmp_keys-slices k b v w) ∙ cmp_slices-lt k b

-- A seek past a key stands at the near bound.
pub past-included :
    (d : Dir) (k b : Key) → IsBytes k → IsBytes b → past d b true k ≡ near_test d (included b) k
past-included forward k b v w = at_or_past b k ∙ sym (above-included k b v w)
past-included backward k b v w =
    ap (λ t. key_lt k b || t) (bytes_eq_comm k b) ∙ at_or_past k b ∙ sym (below-included k b v w)

pub past-excluded :
    (d : Dir) (k b : Key) → IsBytes k → IsBytes b → past d b false k ≡ near_test d (excluded b) k
past-excluded forward k b v w = or_false (key_lt b k) ∙ sym (above-excluded k b v w)
past-excluded backward k b v w = or_false (key_lt k b) ∙ sym (below-excluded k b v w)

later_not : (a b c : Key) → key_lt a b ≡ true → not (key_lt c b) ≡ true → not (key_lt c a) ≡ true
later_not a b c h g = elim (Bool-cases (key_lt c a)) [
  | inr miss ↦ rw miss refl
  | inl hit ↦ absurd (false≢true (ap not (sym (key_lt_trans c a b hit h)) ∙ g))
]

earlier_not : (a b c : Key) → key_lt a b ≡ true → not (key_lt a c) ≡ true → not (key_lt b c) ≡ true
earlier_not a b c h g = elim (Bool-cases (key_lt b c)) [
  | inr miss ↦ rw miss refl
  | inl hit ↦ absurd (false≢true (ap not (sym (key_lt_trans a b c h hit)) ∙ g))
]

-- A key inside the far bound has every key before it inside, too.
pub below_mono :
    (a b : Key) (e : Bound)
    → IsBytes a
    → IsBytes b
    → BoundBytes e
    → key_lt a b ≡ true
    → below_end b e ≡ true
    → below_end a e ≡ true
below_mono a b unbounded v w u h g = unfold below_end in refl
below_mono a b (included e) v w u h g =
    below-included a e v u ∙ later_not a b e h (sym (below-included b e w u) ∙ g)
below_mono a b (excluded e) v w u h g =
    below-excluded a e v u ∙ key_lt_trans a b e h (sym (below-excluded b e w u) ∙ g)

pub above_mono :
    (a b : Key) (s : Bound)
    → IsBytes a
    → IsBytes b
    → BoundBytes s
    → key_lt a b ≡ true
    → above_start a s ≡ true
    → above_start b s ≡ true
above_mono a b unbounded v w u h g = unfold above_start in refl
above_mono a b (included s) v w u h g =
    above-included b s w u ∙ earlier_not a b s h (sym (above-included a s v u) ∙ g)
above_mono a b (excluded s) v w u h g =
    above-excluded b s w u ∙ key_lt_trans s a b (sym (above-excluded a s v u) ∙ g) h
