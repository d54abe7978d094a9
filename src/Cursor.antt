-- ===== src/Cursor.antt =====
-- src/raw/cursor.rs: the double-ended cursor over a key range, on a tree that no writer changes.
--
-- Every validation then succeeds, so versions, retries and `Step::Invalid` do not show. A stack is
-- its frames, the top one first. `batch` of a side holds what is left of its batch, from
-- `batch_pos` on. The loops over the frames take fuel.
pub mod Keys
pub mod Ahead
pub mod Turns
pub mod Work
pub mod Loop
pub mod Sides
pub mod Keeps
pub mod Parts
pub mod Seeks
pub mod SeekFrames
pub mod Descents
pub mod Bounds
pub mod InDirection
pub mod Stack
pub mod StackRuns
pub mod Ranges
pub mod Positions
pub mod Accepts
pub mod Advances
pub mod Scans
mod Tests
use artmap.Prelude.{
  ℕ, zero, suc, ◌+◌, Bool, true, false, ◌&&◌, ◌||◌, not, Option, none, some, List, [], ◌∷◌, ◌++◌,
  length, drop, get_or, leb, ltb, ◌==◌, if◌then◌else◌,
}
use artmap.Prelude.Bytes.{Key, bytes_eq, common_prefix}
use artmap.Prelude.Entries.{Entries}
use artmap.Prelude.Order.{key_lt}
use artmap.Prelude.Ints.{ℤ, pos, negsuc}
use artmap.Tree.{
  Leaf, Slot, null, leaf, inner, Node, prefix, exact_leaf, entries, find_child, Children, nil, cons,
}

pub data Bound : Type 0 where
  included excluded : Key → Bound
  unbounded : Bound

pub data Dir : Type 0 where
  forward backward : Dir

pub record Frame {ℓ} (V : Type ℓ) : Type ℓ where
  pub at : Node V
  -- Forward, the children at bytes from `next` on remain; backward, those up to it.
  pub next : ℤ
  -- The exact leaf has not been visited.
  pub exact : Bool

-- where the next child is looked for
abbrev pub before : ℕ → ℤ
before zero = negsuc 0
before (suc byte) = pos byte

abbrev pub after : Dir → ℕ → ℤ
after forward byte = pos (suc byte)
after backward byte = before byte

abbrev pub is_forward : Dir → Bool
is_forward forward = true
is_forward backward = false

abbrev pub edge : Dir → ℤ
edge forward = pos 0
edge backward = pos 255

-- Forward, every child is past a key that ends in the node; backward, none.
abbrev pub exact_next : Dir → ℤ
exact_next forward = pos 0
exact_next backward = negsuc 0

module _ {ℓ} {A : Type ℓ} where
  -- The first entry at or above a byte, and the last one at or below it.
  unfoldable pub next_child : ℕ → Entries A → Option (ℕ × A)
  next_child from [] = none
  next_child from ((b, c) ∷ es) = if leb from b then some (b, c) else next_child from es

  abbrev pub or_else : Option (ℕ × A) → Option (ℕ × A) → Option (ℕ × A)
  or_else none o = o
  or_else (some e) o = some e

  unfoldable pub prev_child : ℕ → Entries A → Option (ℕ × A)
  prev_child from [] = none
  prev_child from ((b, c) ∷ es) =
      or_else (prev_child from es) (if leb b from then some (b, c) else none)

  unfoldable pub found : Dir → ℤ → Entries A → Option (ℕ × A)
  unfolding next_child prev_child
  found forward (pos k) es = if leb k 255 then next_child k es else none
  found forward (negsuc k) es = none
  found backward (pos k) es = prev_child k es
  found backward (negsuc k) es = none

-- what a frame's node offers next
pub data Gathered {ℓ} (V : Type ℓ) : Type ℓ where
  exhausted : Gathered V
  descend : Node V → ℤ → Gathered V
  batch_of : Leaf V → List (Leaf V) → ℤ → Gathered V

-- A turn of the loop of `step`.
pub data Turn {ℓ} (V : Type ℓ) : Type ℓ where
  at_end : Turn V
  again : List (Frame V) → Turn V
  one_leaf : Leaf V → List (Frame V) → Turn V
  batch : Leaf V → List (Leaf V) → List (Frame V) → Turn V

abbrev pub past_children : ℤ → Bool
past_children (pos k) = false
past_children (negsuc k) = true

-- whether a key comes past a bound
abbrev pub past : Dir → Key → Bool → Key → Bool
past forward key inclusive k = key_lt key k || inclusive && bytes_eq k key
past backward key inclusive k = key_lt k key || inclusive && bytes_eq k key

module _ {ℓ} {V : Type ℓ} where
  abbrev pub more_found :
      Dir → (ℤ → List (Leaf V) × ℤ) → ℤ → Option (ℕ × Slot V) → List (Leaf V) × ℤ
  more_found d rest next (some (byte, leaf l)) =
      (l ∷ (rest (after d byte)).0, (rest (after d byte)).1)
  more_found d rest next _ = ([], next)

  -- Further leaf children, as many as there is room for, and where to go on.
  unfoldable pub gather_more : ℕ → Dir → Entries (Slot V) → ℤ → List (Leaf V) × ℤ
  unfolding found
  gather_more zero d es next = ([], next)
  gather_more (suc room) d es next = more_found d (gather_more room d es) next (found d next es)

  unfoldable pub gather_first : Dir → Entries (Slot V) → Option (ℕ × Slot V) → Gathered V
  unfolding gather_more
  gather_first d es none = exhausted
  gather_first d es (some (byte, null)) = exhausted
  gather_first d es (some (byte, leaf l)) =
      let more = gather_more 15 d es (after d byte) in batch_of l more.0 more.1
  gather_first d es (some (byte, inner c)) = descend c (after d byte)

  unfoldable pub gather : Dir → Entries (Slot V) → ℤ → Gathered V
  unfolding found gather_first
  gather d es next = gather_first d es (found d next es)

  -- Before the first entry of a node, or behind its last.
  abbrev pub edge_frame : Dir → Node V → Frame V
  edge_frame d n = record { at = n; next = edge d; exact = true }

  abbrev pub exact_now : Dir → Frame V → Bool
  exact_now forward f = f.exact
  exact_now backward f = f.exact && past_children f.next

  unfoldable pub turn_exact : Option (Leaf V) → List (Frame V) → Turn V
  turn_exact none st = again st
  turn_exact (some l) st = one_leaf l st

  -- The frame is popped, except backward while its exact leaf is due.
  unfoldable pub turn_exhausted : Dir → Frame V → List (Frame V) → Turn V
  turn_exhausted forward f st = again st
  turn_exhausted backward f st =
      if f.exact then again (record f { next = negsuc 0 } ∷ st) else again st

  unfoldable pub turn_children : Dir → Frame V → List (Frame V) → Gathered V → Turn V
  unfolding turn_exhausted
  turn_children d f st exhausted = turn_exhausted d f st
  turn_children d f st (descend c next) = again (edge_frame d c ∷ record f { next = next } ∷ st)
  turn_children d f st (batch_of l ls next) = batch l ls (record f { next = next } ∷ st)

  unfoldable pub turn : Dir → List (Frame V) → Turn V
  unfolding gather turn_exact turn_children
  turn d [] = at_end
  turn d (f ∷ st) =
      if exact_now d f
      then turn_exact (exact_leaf f.at) (record f { exact = false } ∷ st)
      else turn_children d f st (gather d (entries f.at) f.next)

  unfoldable pub turned : (List (Frame V) → Option (Turn V)) → Turn V → Option (Turn V)
  turned go (again st) = go st
  turned go at_end = some at_end
  turned go (one_leaf l st) = some (one_leaf l st)
  turned go (batch l ls st) = some (batch l ls st)

  unfoldable pub steps : ℕ → Dir → List (Frame V) → Option (Turn V)
  unfolding turn turned
  steps zero d st = none
  steps (suc fuel) d st = turned (steps fuel d) (turn d st)

  -- The key parts from the prefix of the node, so the subtree lies on one side of it.
  unfoldable pub seek_beside : Dir → Key → ℕ → Node V → List (Frame V) → List (Frame V)
  seek_beside d rest m n st =
      let subtree_after_key = m == length rest || ltb (get_or rest m 0) (get_or (prefix n) m 0) in
      if (if is_forward d then subtree_after_key else not subtree_after_key)
      then edge_frame d n ∷ st
      else st

  abbrev pub exact_frame : Dir → Bool → Node V → Frame V
  exact_frame d inclusive n = record { at = n; next = exact_next d; exact = inclusive }

  abbrev pub byte_frame : Dir → ℕ → Node V → Frame V
  byte_frame d byte n = record { at = n; next = after d byte; exact = not (is_forward d) }

  unfoldable pub seek_child :
      Dir
      → Key
      → Bool
      → (Node V → List (Frame V) → List (Frame V))
      → ℕ
      → Node V
      → List (Frame V)
      → Option (Slot V)
      → List (Frame V)
  seek_child d key inclusive next byte n st (some (leaf l)) =
      if past d key inclusive l.key
      then record (byte_frame d byte n) { next = pos byte } ∷ st
      else byte_frame d byte n ∷ st
  seek_child d key inclusive next byte n st (some (inner c)) = next c (byte_frame d byte n ∷ st)
  seek_child d key inclusive next byte n st _ = byte_frame d byte n ∷ st

  unfoldable pub seek_behind :
      Dir
      → Key
      → Bool
      → (Node V → List (Frame V) → List (Frame V))
      → Node V
      → List (Frame V)
      → Key
      → List (Frame V)
  unfolding seek_child
  seek_behind d key inclusive next n st [] = exact_frame d inclusive n ∷ st
  seek_behind d key inclusive next n st (byte ∷ below) =
      seek_child d key inclusive next byte n st (find_child byte n)

  unfoldable pub seek_node : ℕ → Dir → Key → Bool → ℕ → Node V → List (Frame V) → List (Frame V)
  unfolding seek_beside seek_behind
  seek_node zero d key inclusive depth n st = st
  seek_node (suc fuel) d key inclusive depth n st =
      let rest = drop depth key in
      let m = common_prefix (prefix n) rest in
      if ltb m (length (prefix n))
      then seek_beside d rest m n st
      else seek_behind d key inclusive
          (λ c st'. seek_node fuel d key inclusive (depth + length (prefix n) + 1) c st') n st
          (drop (length (prefix n)) rest)
