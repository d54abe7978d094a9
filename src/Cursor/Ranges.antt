-- ===== src/Cursor/Ranges.antt =====
-- Whole scans of a range: from a new cursor, and from one that resumes after an invalidation.
use artmap.Prelude.{
  ℕ, ◌<◌, ◌≡◌, refl, ap, ◌∙◌, Bool, false, Option, none, some, length, if◌then◌else◌,
}
use artmap.Prelude.Bytes.{Key}
use artmap.Tree.{Leaf, Slot}
use artmap.Tree.Wf.{IsBytes, IsTree}
use artmap.Tree.Leaves.{leaves}
use artmap.Cursor.{Bound, excluded, Dir, forward, backward}
use artmap.Cursor.Sides.{
  Resume, Cursor, resume_key, new_cursor, new_side, invalidate, invalidate_side, reset, owned,
  side_of, other_of, seek, inside, near, position, advance, advance_slow, advance_left,
}
use artmap.Cursor.Turns.{directed}
use artmap.Cursor.Keeps.{keep}
use artmap.Cursor.Scans.{drain}
use artmap.Cursor.Bounds.{BoundBytes, far_test}
use artmap.Cursor.Positions.{far_bound, near_bound, in_range, take_sought, drain-seek}

inside-new {ℓ} :
    (V : Type ℓ) (d : Dir) (start finish : Bound)
    → inside d (new_cursor {V = V} start finish) ≡ far_test d (far_bound d start finish)
unfolding inside new_cursor
inside-new V forward start finish = refl
inside-new V backward start finish = refl

module _ {ℓ} {V : Type ℓ} where
  advance-new_cursor :
      (root : Slot V) (d : Dir) (start finish : Bound)
      → advance root d (new_cursor start finish)
        ≡ take_sought d (new_cursor start finish) (seek root new_side (near_bound d start finish) d)
  unfolding advance advance_left advance_slow position near new_cursor new_side
  advance-new_cursor root forward start finish = refl
  advance-new_cursor root backward start finish = refl

  other_of-new_cursor :
      (d : Dir) (start finish : Bound) → (other_of d (new_cursor {V = V} start finish)).last ≡ none
  unfolding new_cursor new_side
  other_of-new_cursor forward start finish = refl
  other_of-new_cursor backward start finish = refl

  -- A cursor over a range of a well-formed tree, driven from one end until it yields nothing,
  -- yields the leaves whose keys lie in the range, each once, ascending from the front and
  -- descending from the back, for bounds made of bytes and with fuel for all leaves.
  pub drain-range :
      (fuel : ℕ) (root : Slot V) (d : Dir) (start finish : Bound)
      → IsTree root
      → BoundBytes start
      → BoundBytes finish
      → length (leaves root) < fuel
      → drain fuel root d (new_cursor start finish)
        ≡ directed d (keep (in_range start finish) (leaves root))
  drain-range fuel root d start finish w bs bf lt =
      drain-seek fuel root d start finish (new_cursor start finish) new_side w bs bf lt
        (unfold new_cursor in refl) (other_of-new_cursor d start finish)
        (inside-new V d start finish) (advance-new_cursor root d start finish)

  -- What is left of the range of a cursor behind a key.
  abbrev pub start_behind : Dir → Key → Cursor V → Bound
  start_behind forward k c = excluded k
  start_behind backward k c = c.start

  abbrev pub finish_behind : Dir → Key → Cursor V → Bound
  finish_behind forward k c = c.finish
  finish_behind backward k c = excluded k

  inside-invalidate :
      (d : Dir) (c : Cursor V) (k : Key)
      → inside d (invalidate c)
        ≡ far_test d (far_bound d (start_behind d k c) (finish_behind d k c))
  unfolding inside invalidate
  inside-invalidate forward c k = refl
  inside-invalidate backward c k = refl

  other_of-invalidate :
      (d : Dir) (c : Cursor V)
      → (other_of d c).last ≡ none
      → (other_of d (invalidate c)).last ≡ none
  unfolding invalidate invalidate_side owned
  other_of-invalidate forward c n = ap owned n
  other_of-invalidate backward c n = ap owned n

  done-invalidate : (c : Cursor V) → c.done ≡ false → (invalidate c).done ≡ false
  unfolding invalidate
  done-invalidate c o = o

  advance-invalidate :
      (root : Slot V) (d : Dir) (c : Cursor V) (r : Resume V)
      → (side_of d c).last ≡ some r
      → c.done ≡ false
      → advance root d (invalidate c)
        ≡ take_sought d (invalidate c) (
            seek root
              (side_of d (invalidate c))
              (near_bound d (start_behind d (resume_key r) c) (finish_behind d (resume_key r) c))
              d)
  unfolding advance advance_left advance_slow position near invalidate invalidate_side owned reset
      resume_key
  advance-invalidate root forward c r e o =
      let c' = invalidate c in
      let s = invalidate_side c.front in
      let first : Bool → Option (Resume V) → Option (Leaf V) × Cursor V = λ t q.
        if t
        then (none, c')
        else take_sought forward c' (seek root s (near forward c' (owned q)) forward) in
      ap (λ t. first t c.front.last) o ∙ ap (first false) e
  advance-invalidate root backward c r e o =
      let c' = invalidate c in
      let s = invalidate_side c.back in
      let first : Bool → Option (Resume V) → Option (Leaf V) × Cursor V = λ t q.
        if t
        then (none, c')
        else take_sought backward c' (seek root s (near backward c' (owned q)) backward) in
      ap (λ t. first t c.back.last) o ∙ ap (first false) e

  behind_bounds :
      (d : Dir) (c : Cursor V) (k : Key)
      → BoundBytes c.start
      → BoundBytes c.finish
      → IsBytes k
      → BoundBytes (start_behind d k c) × BoundBytes (finish_behind d k c)
  behind_bounds forward c k bs bf b = (b, bf)
  behind_bounds backward c k bs bf b = (bs, b)

  -- A cursor that is not done and whose other end has yielded nothing, invalidated behind a leaf
  -- that it yielded, goes on in whatever well-formed tree it then meets: with fuel for all leaves
  -- and bounds and a key made of bytes, it yields the leaves whose keys lie strictly behind that
  -- key and in the range, each once and in its direction.
  pub drain-invalidate :
      (fuel : ℕ) (root : Slot V) (d : Dir) (c : Cursor V) (r : Resume V)
      → IsTree root
      → BoundBytes c.start
      → BoundBytes c.finish
      → IsBytes (resume_key r)
      → length (leaves root) < fuel
      → (side_of d c).last ≡ some r
      → (other_of d c).last ≡ none
      → c.done ≡ false
      → drain fuel root d (invalidate c)
        ≡ directed d (
            keep
              (in_range (start_behind d (resume_key r) c) (finish_behind d (resume_key r) c))
              (leaves root))
  drain-invalidate fuel root d c r w bs bf br lt e n o =
      let b = behind_bounds d c (resume_key r) bs bf br in
      drain-seek fuel root d (start_behind d (resume_key r) c) (finish_behind d (resume_key r) c)
        (invalidate c) (side_of d (invalidate c)) w b.0 b.1 lt (done-invalidate c o)
        (other_of-invalidate d c n) (inside-invalidate d c (resume_key r))
        (advance-invalidate root d c r e o)
