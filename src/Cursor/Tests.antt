-- ===== src/Cursor/Tests.antt =====
-- Scans of a small tree from both ends.
use artmap.Prelude.{ℕ, ◌≡◌, refl, none, some, List, [], ◌∷◌, arith}
use artmap.Prelude.Bytes.{Key}
use artmap.Tree.{node4, capacity, Leaf, Slot, leaf, inner, Node, node, nil, cons}
use artmap.Tree.Wf.{IsTree}
use artmap.Tree.Leaves.{leaves}
use artmap.Cursor.{included, excluded, unbounded, forward, backward, Frame, edge_frame}
use artmap.Cursor.Keys.{cmp_keys, cmp_slices, cmp_keys-slices}
use artmap.Cursor.Sides.{Cursor, at_leaf, resume_key, new_cursor, side_of, advance, invalidate}
use artmap.Cursor.Turns.{directed}
use artmap.Cursor.Keeps.{keep}
use artmap.Cursor.Scans.{drain}
use artmap.Cursor.Stack.{Op, push_op, pop_op, set_op, new_stack, top, run, run_list}
use artmap.Cursor.StackRuns.{tops, firsts, run-run_list}
use artmap.Cursor.Positions.{in_range}
use artmap.Cursor.Ranges.{drain-range, start_behind, finish_behind, drain-invalidate}

abbrev leaf_of : Key → ℕ → Leaf ℕ
leaf_of key value = record { key = key; value = value }

-- the empty key in the root, and two keys below a byte
abbrev below_one : Node ℕ
below_one =
    node node4 [] none
      (cons 2 (leaf (leaf_of (1 ∷ 2 ∷ []) 20)) (cons 3 (leaf (leaf_of (1 ∷ 3 ∷ []) 30)) nil))

abbrev three_keys : Slot ℕ
three_keys = inner (node node4 [] (some (leaf_of [] 0)) (cons 1 (inner below_one) nil))

three_keys-IsTree : IsTree three_keys
unfolding capacity
three_keys-IsTree = (
  omega arith,
  tt,
  refl,
  (tt, tt),
  omega arith,
  (
    omega arith,
    (
      omega arith,
      tt,
      tt,
      ((omega arith, tt), (tt, tt)),
      omega arith,
      (
        omega arith,
        ([], refl, (omega arith, (omega arith, tt))),
        (omega arith, ([], refl, (omega arith, (omega arith, tt))), tt),
      ),
    ),
    tt,
  ),
)

drain-range_example :
    drain 9 three_keys backward (new_cursor (excluded []) (included (1 ∷ 2 ∷ [])))
    ≡ directed backward (keep (in_range (excluded []) (included (1 ∷ 2 ∷ []))) (leaves three_keys))
drain-range_example =
    drain-range 9 three_keys backward (excluded []) (included (1 ∷ 2 ∷ [])) three_keys-IsTree tt
      (omega arith, (omega arith, tt)) (omega arith)

drained_all :
    drain 4 three_keys backward (new_cursor unbounded unbounded)
    ≡ leaf_of (1 ∷ 3 ∷ []) 30 ∷ leaf_of (1 ∷ 2 ∷ []) 20 ∷ leaf_of [] 0 ∷ []
unfolding drain new_cursor
drained_all = refl

cmp_keys-slices_example :
    cmp_keys (1 ∷ 2 ∷ 3 ∷ 4 ∷ 5 ∷ 6 ∷ 7 ∷ 8 ∷ 9 ∷ []) (1 ∷ 2 ∷ 3 ∷ 4 ∷ 5 ∷ 6 ∷ 7 ∷ 9 ∷ [])
    ≡ cmp_slices (1 ∷ 2 ∷ 3 ∷ 4 ∷ 5 ∷ 6 ∷ 7 ∷ 8 ∷ 9 ∷ []) (1 ∷ 2 ∷ 3 ∷ 4 ∷ 5 ∷ 6 ∷ 7 ∷ 9 ∷ [])
cmp_keys-slices_example =
    cmp_keys-slices (1 ∷ 2 ∷ 3 ∷ 4 ∷ 5 ∷ 6 ∷ 7 ∷ 8 ∷ 9 ∷ []) (1 ∷ 2 ∷ 3 ∷ 4 ∷ 5 ∷ 6 ∷ 7 ∷ 9 ∷ [])
      (
        omega arith,
        (
          omega arith,
          (
            omega arith,
            (
              omega arith,
              (omega arith, (omega arith, (omega arith, (omega arith, (omega arith, tt))))),
            ),
          ),
        ),
      )
      (
        omega arith,
        (
          omega arith,
          (
            omega arith,
            (omega arith, (omega arith, (omega arith, (omega arith, (omega arith, tt))))),
          ),
        ),
      )

abbrev one_frame : List (Frame ℕ)
one_frame = edge_frame forward below_one ∷ []

-- a cursor whose front end has yielded the first leaf
abbrev after_one : Cursor ℕ
after_one = (advance three_keys forward (new_cursor unbounded (included (1 ∷ 2 ∷ [])))).1

after_one-last : (side_of forward after_one).last ≡ some (at_leaf (leaf_of [] 0))
unfolding advance new_cursor
after_one-last = refl

-- It goes on behind that leaf.
drain-invalidate_example :
    drain 9 three_keys forward (invalidate after_one)
    ≡ directed forward (
        keep
          (in_range
            (start_behind forward (resume_key (at_leaf (leaf_of [] 0))) after_one)
            (finish_behind forward (resume_key (at_leaf (leaf_of [] 0))) after_one))
          (leaves three_keys))
drain-invalidate_example =
    drain-invalidate 9 three_keys forward after_one (at_leaf (leaf_of [] 0)) three_keys-IsTree
      (unfold advance new_cursor in tt)
      (unfold advance new_cursor in (omega arith, (omega arith, tt))) (unfold resume_key in tt)
      (omega arith) after_one-last (unfold advance new_cursor in refl)
      (unfold advance new_cursor in refl)

-- one frame more than the inline slots, and two back
abbrev deep_run : List (Op ℕ)
deep_run =
    push_op 0
    ∷ push_op 1
    ∷ push_op 2
    ∷ push_op 3
    ∷ push_op 4
    ∷ push_op 5
    ∷ push_op 6
    ∷ push_op 7
    ∷ push_op 8
    ∷ push_op 9
    ∷ push_op 10
    ∷ push_op 11
    ∷ push_op 12
    ∷ set_op 20
    ∷ pop_op
    ∷ pop_op
    ∷ []

run-run_list_example : tops (run deep_run new_stack) ≡ firsts (run_list deep_run [])
run-run_list_example = run-run_list deep_run

deep_run-top : tops (run deep_run new_stack) ≡ some (some 10)
unfolding run new_stack top
deep_run-top = refl
