-- ===== src/Cursor/Stack.antt =====
-- `Stack` of src/raw/cursor.rs: frames inline for the common depths, and in a vector above them.
--
-- `spill` has the last element of the vector first. `None` in an inline slot is `none`; a slot out
-- of range is never read. `pop` has no result where the source's length would fall below zero.
use artmap.Prelude.{ℕ, zero, suc, Option, none, some, List, [], ◌∷◌, ltb, leb, if◌then◌else◌}

abbrev pub inline_frames : ℕ
inline_frames = 12

pub record Stack {ℓ} (A : Type ℓ) : Type ℓ where
  pub inline : List (Option A)
  pub len : ℕ
  pub spill : List A

pub data Op {ℓ} (A : Type ℓ) : Type ℓ where
  push_op set_op : A → Op A
  pop_op clear_op : Op A

module _ {ℓ} {A : Type ℓ} where
  abbrev pub slot_at : ℕ → List (Option A) → Option A
  slot_at i [] = none
  slot_at zero (o ∷ os) = o
  slot_at (suc i) (o ∷ os) = slot_at i os

  abbrev pub set_at : ℕ → A → List (Option A) → List (Option A)
  set_at i a [] = []
  set_at zero a (o ∷ os) = some a ∷ os
  set_at (suc i) a (o ∷ os) = o ∷ set_at i a os

  abbrev pub first : List A → Option A
  first [] = none
  first (a ∷ as') = some a

  abbrev pub others : List A → List A
  others [] = []
  others (a ∷ as') = as'

  abbrev pub set_first : A → List A → List A
  set_first a [] = []
  set_first a (b ∷ bs) = a ∷ bs

  unfoldable pub new_stack : Stack A
  new_stack = record {
    inline = none ∷ none ∷ none ∷ none ∷ none ∷ none ∷ none ∷ none ∷ none ∷ none ∷ none ∷ none ∷ [];
    len = 0;
    spill = [];
  }

  unfoldable pub clear : Stack A → Stack A
  clear s = record s { len = 0; spill = [] }

  unfoldable pub push : A → Stack A → Stack A
  push a s =
      if ltb s.len inline_frames
      then record s { inline = set_at s.len a s.inline; len = suc s.len }
      else record s { spill = a ∷ s.spill; len = suc s.len }

  abbrev pub popped : Stack A → ℕ → Option (Stack A)
  popped s zero = none
  popped s (suc n) =
      if ltb inline_frames (suc n)
      then some (record s { spill = others s.spill; len = n })
      else some (record s { len = n })

  unfoldable pub pop : Stack A → Option (Stack A)
  pop s = popped s s.len

  abbrev pub top_at : Stack A → ℕ → Option A
  top_at s zero = none
  top_at s (suc n) = if leb (suc n) inline_frames then slot_at n s.inline else first s.spill

  unfoldable pub top : Stack A → Option A
  top s = top_at s s.len

  abbrev pub set_top_at : A → Stack A → ℕ → Stack A
  set_top_at a s zero = s
  set_top_at a s (suc n) =
      if leb (suc n) inline_frames
      then record s { inline = set_at n a s.inline }
      else record s { spill = set_first a s.spill }

  -- A write through what `top` returned.
  unfoldable pub set_top : A → Stack A → Stack A
  set_top a s = set_top_at a s s.len

  abbrev pub run_popped : (Stack A → Option (Stack A)) → Option (Stack A) → Option (Stack A)
  run_popped go none = none
  run_popped go (some s) = go s

  unfoldable pub run : List (Op A) → Stack A → Option (Stack A)
  unfolding push pop set_top clear
  run [] s = some s
  run (push_op a ∷ ops) s = run ops (push a s)
  run (set_op a ∷ ops) s = run ops (set_top a s)
  run (clear_op ∷ ops) s = run ops (clear s)
  run (pop_op ∷ ops) s = run_popped (run ops) (pop s)

  -- The same operations on a list.
  unfoldable pub run_list : List (Op A) → List A → Option (List A)
  run_list [] xs = some xs
  run_list (push_op a ∷ ops) xs = run_list ops (a ∷ xs)
  run_list (set_op a ∷ ops) xs = run_list ops (set_first a xs)
  run_list (clear_op ∷ ops) xs = run_list ops []
  run_list (pop_op ∷ ops) [] = none
  run_list (pop_op ∷ ops) (x ∷ xs) = run_list ops xs
