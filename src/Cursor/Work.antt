-- ===== src/Cursor/Work.antt =====
-- The fuel that a stack of frames needs, and the leaves of a fresh frame.
use artmap.Prelude.{
  ℕ, ◌+◌, ◌≤◌, ◌<◌, ◌≡◌, refl, ap, sym, ◌∙◌, true, inl, inr, none, some, List, [], ◌∷◌, ◌++◌,
  reverse, reverse-append, reverse-cons, leb, Bool-cases, arith,
}
use mathlib.Core.List.{append-nil}
use artmap.Prelude.Entries.{Entries}
use artmap.Prelude.Ints.{ℤ, pos}
use artmap.Tree.{Slot, null, leaf, inner, Node, node, Children, nil, cons, entries, to_entries}
use artmap.Tree.Remove.{to_nat}
use artmap.Tree.Leaves.{leaves, node_leaves, child_leaves}
use artmap.Cursor.{Dir, forward, backward, Frame, edge_frame}
use artmap.Cursor.Ahead.{ByteEntries, ahead, from_byte, down_from, from_byte-zero}
use artmap.Cursor.Turns.{directed, runs, runs-append, frame_leaves, Sane, Sane-parts}

abbrev mutual
  pub slot_size {ℓ} : {V : Type ℓ} → Slot V → ℕ
  slot_size null = 0
  slot_size (leaf l) = 0
  slot_size (inner n) = node_size n

  pub node_size {ℓ} : {V : Type ℓ} → Node V → ℕ
  node_size (node ty p ex cs) = 4 + children_size cs

  pub children_size {ℓ} : {V : Type ℓ} → Children V → ℕ
  children_size nil = 0
  children_size (cons b s cs) = slot_size s + children_size cs

-- a turn backward from the children to the exact leaf
abbrev pub due : Dir → ℤ → ℕ
due backward (pos k) = 1
due _ _ = 0

module _ {ℓ} {V : Type ℓ} where
  abbrev pub sizes : Entries (Slot V) → ℕ
  sizes [] = 0
  sizes ((b, c) ∷ es) = slot_size c + sizes es

  -- The turns that a frame and a stack take at most.
  abbrev pub frame_work : Dir → Frame V → ℕ
  frame_work d f = 1 + to_nat f.exact + due d f.next + sizes (ahead d f.next (entries f.at))

  abbrev pub work : Dir → List (Frame V) → ℕ
  work d [] = 0
  work d (f ∷ st) = frame_work d f + work d st

  sizes-append : (es fs : Entries (Slot V)) → sizes (es ++ fs) ≡ sizes es + sizes fs
  sizes-append [] fs = omega arith
  sizes-append ((b, c) ∷ es) fs = omega (arith, sizes-append es fs)

  sizes-from : (k : ℕ) (es : Entries (Slot V)) → sizes (from_byte k es) ≤ sizes es
  sizes-from k [] = omega arith
  sizes-from k ((b, c) ∷ es) = elim (Bool-cases (leb k b)) [
    | inl hit ↦ rw hit (omega (arith, sizes-from k es))
    | inr miss ↦ rw miss (omega (arith, sizes-from k es))
  ]

  sizes-down : (k : ℕ) (es : Entries (Slot V)) → sizes (down_from k es) ≤ sizes es
  sizes-down k [] = omega arith
  sizes-down k ((b, c) ∷ es) = elim (Bool-cases (leb b k)) [
    | inl hit ↦ rw hit (omega (arith, sizes-down k es, sizes-append (down_from k es) ((b, c) ∷ [])))
    | inr miss ↦ rw miss (omega (arith, sizes-down k es, sizes-append (down_from k es) []))
  ]

  sizes-entries : (cs : Children V) → sizes (to_entries cs) ≡ children_size cs
  sizes-entries nil = refl
  sizes-entries (cons b s cs) = ap (λ t. slot_size s + t) (sizes-entries cs)

  pub edge-work : (d : Dir) (n : Node V) → frame_work d (edge_frame d n) < node_size n
  edge-work forward (node ty p ex cs) =
      omega (arith, sizes-from 0 (to_entries cs), sizes-entries cs)
  edge-work backward (node ty p ex cs) =
      omega (arith, sizes-down 255 (to_entries cs), sizes-entries cs)

  pub runs-children : (cs : Children V) → runs forward (to_entries cs) ≡ child_leaves cs
  runs-children nil = refl
  runs-children (cons b s cs) = ap (λ t. leaves s ++ t) (runs-children cs)

  runs-down :
      (cs : Children V)
      → ByteEntries (to_entries cs)
      → runs backward (down_from 255 (to_entries cs)) ≡ reverse (child_leaves cs)
  runs-down nil w = refl
  runs-down (cons b s cs) w =
      let hit : leb b 255 ≡ true = let h = w.0 in ground arith in
      rw hit (
        runs-append backward (down_from 255 (to_entries cs)) ((b, s) ∷ [])
        ∙ ap (λ t. t ++ (reverse (leaves s) ++ [])) (runs-down cs w.1)
        ∙ ap (λ t. reverse (child_leaves cs) ++ t) (append-nil (reverse (leaves s)))
        ∙ sym (reverse-append (leaves s) (child_leaves cs)))

  -- A fresh frame has all the leaves of its node before it.
  pub edge-leaves :
      (d : Dir) (n : Node V) → Sane n → frame_leaves d (edge_frame d n) ≡ directed d (node_leaves n)
  edge-leaves forward (node ty p none cs) w =
      ap (runs forward) (from_byte-zero (to_entries cs)) ∙ runs-children cs
  edge-leaves forward (node ty p (some l) cs) w =
      ap (λ t. l ∷ runs forward t) (from_byte-zero (to_entries cs))
      ∙ ap (λ t. l ∷ t) (runs-children cs)
  edge-leaves backward (node ty p none cs) w =
      append-nil (runs backward (down_from 255 (to_entries cs)))
      ∙ runs-down cs (Sane-parts (node ty p none cs) w).1
  edge-leaves backward (node ty p (some l) cs) w =
      ap (λ t. t ++ l ∷ []) (runs-down cs (Sane-parts (node ty p (some l) cs) w).1)
      ∙ sym (reverse-cons l (child_leaves cs))
