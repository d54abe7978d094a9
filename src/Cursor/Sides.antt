-- ===== src/Cursor/Sides.antt =====
-- The cursor of src/raw/cursor.rs: its two ends, `seek`, `step` and `advance`.
use artmap.Prelude.{
  suc, Bool, true, false, ◌&&◌, ◌||◌, not, Option, none, some, List, [], ◌∷◌, length, if◌then◌else◌,
}
use artmap.Prelude.Bytes.{Key}
use artmap.Tree.{Leaf, Slot, null, leaf, inner}
use artmap.Cursor.{
  Bound, included, excluded, unbounded, Dir, forward, backward, Frame, edge_frame, Turn, at_end,
  again, one_leaf, batch, steps, seek_node,
}
use artmap.Cursor.Keys.{cmp_keys, is_ge, is_gt, is_le, is_lt}
use artmap.Cursor.Work.{work}

unfoldable pub above_start : Key → Bound → Bool
unfolding cmp_keys
above_start k (included s) = is_ge (cmp_keys k s)
above_start k (excluded s) = is_gt (cmp_keys k s)
above_start k unbounded = true

unfoldable pub below_end : Key → Bound → Bool
unfolding cmp_keys
below_end k (included e) = is_le (cmp_keys k e)
below_end k (excluded e) = is_lt (cmp_keys k e)
below_end k unbounded = true

-- The root is a leaf: it is pending if it lies past the bound.
unfoldable pub takes_root : Dir → Bound → Key → Bool
unfolding cmp_keys
takes_root d unbounded k = true
takes_root forward (included b) k = is_ge (cmp_keys k b)
takes_root forward (excluded b) k = is_gt (cmp_keys k b)
takes_root backward (included b) k = is_le (cmp_keys k b)
takes_root backward (excluded b) k = is_lt (cmp_keys k b)

-- Where an end resumes from: the last leaf it yielded, or an owned copy of its key.
pub data Resume {ℓ} (V : Type ℓ) : Type ℓ where
  at_leaf : Leaf V → Resume V
  at_key : Key → Resume V

pub record Side {ℓ} (V : Type ℓ) : Type ℓ where
  pub stack : List (Frame V)
  pub pending : Option (Leaf V)
  pub left : List (Leaf V)
  pub batch_in_range : Bool
  pub last : Option (Resume V)
  pub positioned : Bool

pub record Cursor {ℓ} (V : Type ℓ) : Type ℓ where
  pub start : Bound
  pub finish : Bound
  pub front : Side V
  pub back : Side V
  pub done : Bool

-- what `step` comes to, with the side that it leaves
pub data Step {ℓ} (V : Type ℓ) : Type ℓ where
  stuck : Step V
  end_step : Side V → Step V
  leaf_step : Leaf V → Side V → Step V
  batch_step : Leaf V → Side V → Step V

abbrev pub is_none {ℓ} : {A : Type ℓ} → Option A → Bool
is_none none = true
is_none (some a) = false

module _ {ℓ} {V : Type ℓ} where
  unfoldable pub resume_key : Resume V → Key
  resume_key (at_leaf l) = l.key
  resume_key (at_key k) = k

  unfoldable pub new_side : Side V
  new_side = record {
    stack = [];
    pending = none;
    left = [];
    batch_in_range = false;
    last = none;
    positioned = false;
  }

  unfoldable pub new_cursor : Bound → Bound → Cursor V
  unfolding new_side
  new_cursor start finish = record {
    start = start;
    finish = finish;
    front = new_side;
    back = new_side;
    done = false;
  }

  unfoldable pub reset : Side V → Side V
  reset side = record side { stack = []; pending = none; left = []; batch_in_range = false }

  unfoldable pub remember : Leaf V → Side V → Side V
  remember l side = record side { last = some (at_leaf l) }

  unfoldable pub owned : Option (Resume V) → Option (Resume V)
  unfolding resume_key
  owned none = none
  owned (some r) = some (at_key (resume_key r))

  unfoldable pub invalidate_side : Side V → Side V
  unfolding reset owned
  invalidate_side side = record (reset side) { positioned = false; last = owned side.last }

  -- Both ends seek again from owned keys.
  unfoldable pub invalidate : Cursor V → Cursor V
  unfolding invalidate_side
  invalidate c = record c { front = invalidate_side c.front; back = invalidate_side c.back }

  abbrev pub side_of : Dir → Cursor V → Side V
  side_of forward c = c.front
  side_of backward c = c.back

  abbrev pub other_of : Dir → Cursor V → Side V
  other_of forward c = c.back
  other_of backward c = c.front

  abbrev pub with_side : Dir → Side V → Cursor V → Cursor V
  with_side forward s c = record c { front = s }
  with_side backward s c = record c { back = s }

  unfoldable pub seek : Slot V → Side V → Bound → Dir → Side V
  unfolding reset takes_root seek_node
  seek null side bound d = reset side
  seek (leaf l) side bound d =
      if takes_root d bound l.key then record (reset side) { pending = some l } else reset side
  seek (inner n) side unbounded d = record (reset side) { stack = edge_frame d n ∷ [] }
  seek (inner n) side (included k) d = record (reset side) {
    stack = seek_node (suc (length k)) d k true 0 n [];
  }
  seek (inner n) side (excluded k) d = record (reset side) {
    stack = seek_node (suc (length k)) d k false 0 n [];
  }

  abbrev pub step_of : Side V → Option (Turn V) → Step V
  step_of side none = stuck
  step_of side (some at_end) = end_step (record side { stack = [] })
  step_of side (some (again st)) = stuck
  step_of side (some (one_leaf l st)) = leaf_step l (record side { stack = st })
  step_of side (some (batch l ls st)) =
      batch_step l (record side { stack = st; left = ls; batch_in_range = false })

  unfoldable pub step_left : Dir → Side V → List (Leaf V) → Step V
  unfolding steps
  step_left d side (l ∷ ls) = leaf_step l (record side { left = ls })
  step_left d side [] = step_of side (steps (suc (work d side.stack)) d side.stack)

  -- A step serves the batch, or turns the frames.
  unfoldable pub step : Dir → Side V → Step V
  unfolding step_left
  step d side = step_left d side side.left

  -- inside the far bound
  unfoldable pub inside : Dir → Cursor V → Key → Bool
  unfolding above_start below_end
  inside forward c k = below_end k c.finish
  inside backward c k = above_start k c.start

  unfoldable pub crossed_at : Dir → Key → Option (Resume V) → Bool
  unfolding cmp_keys resume_key
  crossed_at d k none = false
  crossed_at forward k (some r) = is_ge (cmp_keys k (resume_key r))
  crossed_at backward k (some r) = is_le (cmp_keys k (resume_key r))

  -- A leaf is yielded if it is inside the far bound and short of the other end.
  unfoldable pub accept : Dir → Leaf V → Side V → Cursor V → Option (Leaf V) × Cursor V
  unfolding inside remember crossed_at
  accept d l side c =
      if not (inside d c l.key) || crossed_at d l.key (other_of d c).last
      then (none, record (with_side d side c) { done = true })
      else (some l, with_side d (remember l side) c)

  abbrev pub last_of : Leaf V → List (Leaf V) → Leaf V
  last_of l [] = l
  last_of l (m ∷ ls) = last_of m ls

  unfoldable pub stepped : Dir → Cursor V → Step V → Option (Leaf V) × Cursor V
  unfolding accept inside
  stepped d c stuck = (none, c)
  stepped d c (end_step side) = (none, record (with_side d side c) { done = true })
  stepped d c (leaf_step l side) = accept d l side c
  stepped d c (batch_step l side) =
      accept d l (record side { batch_in_range = inside d c (last_of l side.left).key }) c

  unfoldable pub take_pending :
      Dir → Side V → Cursor V → Option (Leaf V) → Option (Leaf V) × Cursor V
  unfolding accept stepped step
  take_pending d side c (some l) = accept d l (record side { pending = none }) c
  take_pending d side c none = stepped d c (step d side)

  unfoldable pub near : Dir → Cursor V → Option (Resume V) → Bound
  unfolding resume_key
  near d c (some r) = excluded (resume_key r)
  near forward c none = c.start
  near backward c none = c.finish

  unfoldable pub position : Slot V → Dir → Cursor V → Side V → Side V
  unfolding seek near
  position root d c side =
      if side.positioned
      then side
      else record (seek root side (near d c side.last) d) { positioned = true }

  unfoldable pub advance_slow : Slot V → Dir → Cursor V → Option (Leaf V) × Cursor V
  unfolding position take_pending
  advance_slow root d c =
      if c.done
      then (none, c)
      else let side = position root d c (side_of d c) in take_pending d side c side.pending

  -- The fast path, while the batch is known to lie inside and the other end has not moved.
  unfoldable pub advance_left :
      Slot V → Dir → Cursor V → Side V → List (Leaf V) → Option (Leaf V) × Cursor V
  unfolding remember advance_slow
  advance_left root d c side [] = advance_slow root d c
  advance_left root d c side (l ∷ ls) =
      if side.batch_in_range
        && is_none (other_of d c).last
        && is_none side.pending
        && side.positioned
        && not c.done
      then (some l, with_side d (remember l (record side { left = ls })) c)
      else advance_slow root d c

  -- `next` and `next_back`
  unfoldable pub advance : Slot V → Dir → Cursor V → Option (Leaf V) × Cursor V
  unfolding advance_left
  advance root d c = advance_left root d c (side_of d c) (side_of d c).left
