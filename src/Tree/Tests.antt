-- ===== src/Tree/Tests.antt =====
-- A small tree, run through the operations.
use artmap.Prelude.{ℕ, suc, ◌+◌, ◌≡◌, refl, true, false, none, some, List, [], ◌∷◌, length, arith}
use artmap.Prelude.Bytes.{Key, bytes_eq, is_prefix_of, common_prefix}
use artmap.Prelude.Entries
use artmap.Prelude.Entries.{insert, find}
use artmap.Tree.{
  node4, node16, node48, Leaf, Slot, leaf, inner, node, nil, cons, find_child, capacity,
  insert_child, replace_child, store_prefix, fresh,
}
use artmap.Tree.Read.{get}
use artmap.Tree.Write.{Mode, replace, insert_if_absent, inserted, replaced, Done, insert_with}
use artmap.Tree.Wf.{IsTree}
use artmap.Tree.Laws.{
  updated, insert_all, mapped, ByteKeys, get-insert, insert-outcome, insert-IsTree,
  insert_all-mapped,
}
use artmap.Tree.Remove.{Removed, remove}
use artmap.Prelude.{Option}
use artmap.Tree.{null, remove_child, push_all, set_exact_leaf}
use artmap.Tree.RemoveLaws.{Removes, remove-Removes, remove-insert}
use artmap.Tree.Runs.{
  Call, inserting, removing, ByteCalls, StandsFor, run_calls, mapped_calls, run_calls-mapped_calls,
}
use artmap.Tree.InsertBefore.{outcome_of}
use artmap.Tree.InsertLeaf.{holder}
use artmap.Tree.Leaves.{leaves, look}
use artmap.Tree.Refines.{get-leaves}
use artmap.Tree.Sorted.{put, without, one_more}
use artmap.Tree.Contents.{leaves-insert, length-insert_with, leaves-remove, length-removed}
use artmap.Tree.Shrink.{shrink_to_fit}
use artmap.Tree.Fitted.{assert_fitted}
use artmap.Tree.ShrinkLaws.{shrink_to_fit-Fits, get-shrink_to_fit}

abbrev leaf_of : Key → ℕ → Leaf ℕ
leaf_of key value = record { key = key; value = value }

-- two keys below one prefix byte
abbrev two_keys : Slot ℕ
two_keys = inner (
    node node4 (1 ∷ []) none
      (cons 2 (leaf (leaf_of (1 ∷ 2 ∷ []) 20)) (cons 3 (leaf (leaf_of (1 ∷ 3 ∷ []) 30)) nil)))

two_keys-IsTree : IsTree two_keys
unfolding capacity
two_keys-IsTree = (
  omega arith,
  (omega arith, tt),
  tt,
  ((omega arith, tt), (tt, tt)),
  omega arith,
  (
    omega arith,
    ([], refl, (omega arith, (omega arith, tt))),
    (omega arith, ([], refl, (omega arith, (omega arith, tt))), tt),
  ),
)

-- A key that splits the prefix of the node.
abbrev split_done : Done ℕ
split_done = record {
  slot = inner (
      node node4 [] none (
        cons 1
          (inner (
            node node4 [] none (
              cons 2 (leaf (leaf_of (1 ∷ 2 ∷ []) 20))
                (cons 3 (leaf (leaf_of (1 ∷ 3 ∷ []) 30)) nil))))
          (cons 7 (leaf (leaf_of (7 ∷ []) 70)) nil)));
  outcome = inserted;
  allocs = node4 ∷ [];
}

insert_split : insert_with replace (leaf_of (7 ∷ []) 70) two_keys ≡ some split_done
unfolding insert_with is_prefix_of common_prefix insert_child store_prefix fresh insert
insert_split = refl

-- A key that is there.
abbrev replace_done : Done ℕ
replace_done = record {
  slot = inner (
      node node4 (1 ∷ []) none
        (cons 2 (leaf (leaf_of (1 ∷ 2 ∷ []) 20)) (cons 3 (leaf (leaf_of (1 ∷ 3 ∷ []) 31)) nil)));
  outcome = replaced (leaf_of (1 ∷ 3 ∷ []) 30);
  allocs = [];
}

insert_again : insert_with replace (leaf_of (1 ∷ 3 ∷ []) 31) two_keys ≡ some replace_done
unfolding insert_with is_prefix_of find_child find replace_child bytes_eq Entries.replace
insert_again = refl

get-insert_example :
    get (1 ∷ 2 ∷ []) split_done.slot
    ≡ updated (leaf_of (7 ∷ []) 70) inserted (λ k. get k two_keys) (1 ∷ 2 ∷ [])
get-insert_example =
    get-insert replace (leaf_of (7 ∷ []) 70) (1 ∷ 2 ∷ []) two_keys two_keys-IsTree insert_split

insert-outcome_example : replace_done.outcome ≡ outcome_of replace (get (1 ∷ 3 ∷ []) two_keys)
insert-outcome_example =
    insert-outcome replace (leaf_of (1 ∷ 3 ∷ []) 31) two_keys two_keys-IsTree insert_again

insert-IsTree_example :
    (d : Done ℕ) × (insert_with insert_if_absent (leaf_of (1 ∷ 2 ∷ 9 ∷ []) 5) two_keys ≡ some d)
    × IsTree d.slot
insert-IsTree_example =
    insert-IsTree insert_if_absent (leaf_of (1 ∷ 2 ∷ 9 ∷ []) 5) two_keys two_keys-IsTree
      (omega arith, (omega arith, (omega arith, tt)))

abbrev three_ops : List (Mode × Leaf ℕ)
three_ops =
    (insert_if_absent, leaf_of (1 ∷ 2 ∷ []) 3)
    ∷ (replace, leaf_of (1 ∷ 2 ∷ []) 2)
    ∷ (replace, leaf_of (1 ∷ []) 1)
    ∷ []

three_ops-ByteKeys : ByteKeys three_ops
three_ops-ByteKeys =
    ((omega arith, (omega arith, tt)), ((omega arith, (omega arith, tt)), ((omega arith, tt), tt)))

insert_all-mapped_example :
    (root : Slot ℕ) × (insert_all three_ops ≡ some root)
    × IsTree root
    × ((key : Key) → get key root ≡ mapped three_ops key)
insert_all-mapped_example = insert_all-mapped three_ops three_ops-ByteKeys

mapped_first : mapped three_ops (1 ∷ 2 ∷ []) ≡ some (leaf_of (1 ∷ 2 ∷ []) 2)
unfolding bytes_eq
mapped_first = refl

get_absent : get (7 ∷ []) two_keys ≡ none
unfolding get is_prefix_of
get_absent = refl

remove-insert_example :
    (r : Removed ℕ) × (remove (7 ∷ []) split_done.slot ≡ some r)
    × (r.taken_leaf ≡ leaf_of (7 ∷ []) 70)
    × ((k : Key) → get k r.slot ≡ get k two_keys)
remove-insert_example =
    remove-insert replace (leaf_of (7 ∷ []) 70) two_keys two_keys-IsTree (omega arith, tt)
      get_absent insert_split

-- The last key of a chain of nodes takes the chain with it.
abbrev one_below : Slot ℕ
one_below = inner (
    node node4 (1 ∷ []) none
      (cons 2 (inner (node node4 [] none (cons 3 (leaf (leaf_of (1 ∷ 2 ∷ 3 ∷ []) 5)) nil))) nil))

one_below-IsTree : IsTree one_below
unfolding capacity
one_below-IsTree = (
  omega arith,
  (omega arith, tt),
  tt,
  (tt, tt),
  omega arith,
  (
    omega arith,
    (
      omega arith,
      tt,
      tt,
      (tt, tt),
      omega arith,
      (omega arith, ([], refl, (omega arith, (omega arith, (omega arith, tt)))), tt),
    ),
    tt,
  ),
)

remove-Removes_example : Removes (1 ∷ 2 ∷ 3 ∷ []) one_below (remove (1 ∷ 2 ∷ 3 ∷ []) one_below)
remove-Removes_example =
    remove-Removes (1 ∷ 2 ∷ 3 ∷ []) one_below one_below-IsTree (tt, ((tt, (tt, tt)), tt))

-- Two keys in, and the longer one out again, which empties a node.
abbrev three_calls : List (Call ℕ)
three_calls =
    removing (1 ∷ 2 ∷ 3 ∷ [])
    ∷ inserting insert_if_absent (leaf_of (1 ∷ 2 ∷ 3 ∷ []) 3)
    ∷ inserting replace (leaf_of (1 ∷ []) 1)
    ∷ []

three_calls-ByteCalls : ByteCalls three_calls
three_calls-ByteCalls = ((omega arith, (omega arith, (omega arith, tt))), ((omega arith, tt), tt))

run_calls-mapped_calls_example :
    (root : Slot ℕ) × (run_calls three_calls ≡ some root)
    × StandsFor (mapped_calls three_calls) root
run_calls-mapped_calls_example = run_calls-mapped_calls three_calls three_calls-ByteCalls

abbrev get_or_null : Option (Removed ℕ) → Slot ℕ
get_or_null none = one_below
get_or_null (some d) = d.slot

left_empty : get_or_null (remove (1 ∷ 2 ∷ 3 ∷ []) one_below) ≡ null
unfolding remove is_prefix_of find_child find bytes_eq remove_child Entries.remove
left_empty = refl

get-leaves_example : get (1 ∷ 3 ∷ []) two_keys ≡ look (1 ∷ 3 ∷ []) (leaves two_keys)
get-leaves_example = get-leaves (1 ∷ 3 ∷ []) two_keys two_keys-IsTree

leaves-insert_example :
    leaves split_done.slot ≡ put (holder (leaf_of (7 ∷ []) 70) inserted) (leaves two_keys)
leaves-insert_example =
    leaves-insert replace (leaf_of (7 ∷ []) 70) two_keys two_keys-IsTree (omega arith, tt)
      insert_split

length-insert_with_example :
    length (leaves split_done.slot) ≡ length (leaves two_keys) + one_more (get (7 ∷ []) two_keys)
length-insert_with_example =
    length-insert_with replace (leaf_of (7 ∷ []) 70) two_keys two_keys-IsTree (omega arith, tt)
      insert_split

-- A key that goes, and the node that keeps one leaf.
abbrev one_gone : Removed ℕ
one_gone = record {
  slot = inner (node node4 (1 ∷ []) none (cons 2 (leaf (leaf_of (1 ∷ 2 ∷ []) 20)) nil));
  taken_leaf = leaf_of (1 ∷ 3 ∷ []) 30;
  count = 1;
  follow_up = false;
}

remove_one : remove (1 ∷ 3 ∷ []) two_keys ≡ some one_gone
unfolding remove is_prefix_of find_child find bytes_eq remove_child Entries.remove
remove_one = refl

leaves-remove_example : leaves one_gone.slot ≡ without (1 ∷ 3 ∷ []) (leaves two_keys)
leaves-remove_example = leaves-remove (1 ∷ 3 ∷ []) two_keys two_keys-IsTree remove_one

length-removed_example : suc (length (leaves one_gone.slot)) ≡ length (leaves two_keys)
length-removed_example = length-removed (1 ∷ 3 ∷ []) two_keys two_keys-IsTree remove_one

-- Two nodes that fit in one, the upper one in a layout too large.
abbrev unfitted : Slot ℕ
unfitted = inner (
    node node16 [] none (
      cons 1
        (inner (
          node node48 [] none (
            cons 2 (leaf (leaf_of (1 ∷ 2 ∷ []) 20)) (cons 3 (leaf (leaf_of (1 ∷ 3 ∷ []) 30)) nil))))
        nil))

unfitted-IsTree : IsTree unfitted
unfolding capacity
unfitted-IsTree = (
  omega arith,
  tt,
  tt,
  (tt, tt),
  omega arith,
  (
    omega arith,
    (
      omega arith,
      tt,
      tt,
      ((omega arith, tt), (tt, tt)),
      omega arith,
      (
        omega arith,
        ([], refl, (omega arith, (omega arith, tt))),
        (omega arith, ([], refl, (omega arith, (omega arith, tt))), tt),
      ),
    ),
    tt,
  ),
)

merged_two : shrink_to_fit unfitted ≡ two_keys
unfolding shrink_to_fit store_prefix fresh insert_child insert replace_child Entries.replace
    push_all set_exact_leaf
merged_two = refl

shrink_to_fit-Fits_example :
    IsTree (shrink_to_fit unfitted)
    × (leaves (shrink_to_fit unfitted) ≡ leaves unfitted)
    × (assert_fitted (shrink_to_fit unfitted) ≡ true)
shrink_to_fit-Fits_example = shrink_to_fit-Fits unfitted unfitted-IsTree

get-shrink_to_fit_example : get (1 ∷ 3 ∷ []) (shrink_to_fit unfitted) ≡ get (1 ∷ 3 ∷ []) unfitted
get-shrink_to_fit_example = get-shrink_to_fit (1 ∷ 3 ∷ []) unfitted unfitted-IsTree
