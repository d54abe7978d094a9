-- ===== src/Cursor/Seeks.antt =====
-- `seek` of src/raw/cursor.rs below an inner node.
use artmap.Prelude.{
  ℕ, suc, ◌<◌, ◌≡◌, refl, ap, sym, ◌∙◌, Bool, true, false, ◌||◌, not, inl, inr, List, [], ◌∷◌, ◌++◌,
  length, drop, get_or, ltb, ◌==◌, Bool-cases, arith,
}
use mathlib.Core.List.{append_assoc}
use artmap.Prelude.Bytes.{Key, common_prefix}
use artmap.Prelude.Order.{key_lt, key_lt-append}
use artmap.Tree.{Leaf, Node, prefix}
use artmap.Tree.Wf.{WfNode}
use artmap.Tree.Stands.{Stands}
use artmap.Tree.Leaves.{node_leaves, Every-map}
use artmap.Tree.InOrder.{Under}
use artmap.Tree.Refines.{node_leaves-Under}
use artmap.Cursor.{Dir, forward, backward, Frame, seek_beside}
use artmap.Cursor.Turns.{remaining, AllSane}
use artmap.Cursor.Work.{edge-leaves}
use artmap.Cursor.Keeps.{kept, kept-after, kept-before, AllAfter, AllBefore}

abbrev parted_at : ℕ → Key → Key → Bool
parted_at m p rest = m == length rest || ltb (get_or rest m 0) (get_or p m 0)

parted_at-suc :
    (m x y : ℕ) (p rest : Key) → parted_at (suc m) (x ∷ p) (y ∷ rest) ≡ parted_at m p rest
parted_at-suc m x y p rest =
    let e : (suc m == suc (length rest)) ≡ (m == length rest) = ground arith in
    ap (λ t. t || ltb (get_or rest m 0) (get_or p m 0)) e

-- A key that parts from a prefix lies before everything behind the prefix, or behind it all.
parted-key_lt :
    (p rest t : Key)
    → common_prefix p rest < length p
    → (key_lt rest (p ++ t) ≡ parted_at (common_prefix p rest) p rest)
      × (key_lt (p ++ t) rest ≡ not (parted_at (common_prefix p rest) p rest))
unfolding common_prefix key_lt
parted-key_lt [] rest t h = absurd (omega arith)
parted-key_lt (x ∷ p) [] t h = (refl, refl)
parted-key_lt (x ∷ p) (y ∷ rest) t h = elim (Bool-cases (x == y)) [
  | inl same ↦
      let yx : (y == x) ≡ true = ground arith in
      let r = parted-key_lt p rest t (let g = (rw same at h) in omega arith) in
      let q = parted_at-suc (common_prefix p rest) x y p rest in
      rw (same, yx) (r.0 ∙ sym q, r.1 ∙ ap not (sym q))
  | inr other ↦
      let yx : (y == x) ≡ false = ground arith in
      let z : (0 == suc (length rest)) ≡ false = ground arith in
      rw (other, yx, z) (refl, (let q : ltb x y ≡ not (ltb y x) = ground arith in q))
]

module _ {ℓ} {V : Type ℓ} where
  -- What a seek adds to the stack: the leaves of the node that lie past the key.
  abbrev pub Sought : Dir → Key → Bool → Node V → List (Frame V) → List (Frame V) → Type ℓ
  Sought d key inclusive n st st' =
      AllSane st' × (remaining d st' ≡ kept d key inclusive (node_leaves n) ++ remaining d st)

  pub kept-nil : (d : Dir) (key : Key) (inclusive : Bool) → kept {V = V} d key inclusive [] ≡ []
  kept-nil forward key inclusive = refl
  kept-nil backward key inclusive = refl

  module _ (key path : Key) (depth : ℕ) (n : Node V) (w : WfNode path n) (st : List (Frame V))
      (a : AllSane st) (stands : Stands key path depth) where
    Under-key :
        (l : Leaf V) → Under (path ++ prefix n) l → (r : Key) × (l.key ≡ path ++ (prefix n ++ r))
    Under-key l (r, e) = (r, e ∙ append_assoc path (prefix n) r)

    module _ (lt : common_prefix (prefix n) (drop depth key) < length (prefix n)) where
      parted-after :
          parted_at (common_prefix (prefix n) (drop depth key)) (prefix n) (drop depth key) ≡ true
          → AllAfter key (node_leaves n)
      parted-after h =
          Every-map (Under (path ++ prefix n)) (λ l. key_lt key l.key ≡ true) (node_leaves n)
            (λ l u.
              let (r, e) = Under-key l u in
              ap (λ k. key_lt k l.key) stands.joined
              ∙ ap (key_lt (path ++ drop depth key)) e
              ∙ key_lt-append path (drop depth key) (prefix n ++ r)
              ∙ (parted-key_lt (prefix n) (drop depth key) r lt).0
              ∙ h)
            (node_leaves-Under path n w)

      parted-before :
          parted_at (common_prefix (prefix n) (drop depth key)) (prefix n) (drop depth key) ≡ false
          → AllBefore key (node_leaves n)
      parted-before h =
          Every-map (Under (path ++ prefix n)) (λ l. key_lt l.key key ≡ true) (node_leaves n)
            (λ l u.
              let (r, e) = Under-key l u in
              ap (λ k. key_lt k key) e
              ∙ ap (key_lt (path ++ (prefix n ++ r))) stands.joined
              ∙ key_lt-append path (prefix n ++ r) (drop depth key)
              ∙ (parted-key_lt (prefix n) (drop depth key) r lt).1
              ∙ ap not h)
            (node_leaves-Under path n w)

      pub beside-Sought :
          (d : Dir) (inclusive : Bool)
          → Sought d key inclusive n st
              (seek_beside d (drop depth key) (common_prefix (prefix n) (drop depth key)) n st)
      unfolding seek_beside
      beside-Sought forward inclusive =
          elim (Bool-cases
            (parted_at (common_prefix (prefix n) (drop depth key)) (prefix n) (drop depth key))) [
              | inl h ↦ rw h (
                ((path, w), a),
                ap (λ t. t ++ remaining forward st)
                    (edge-leaves forward n (path, w)
                      ∙ sym (kept-after key inclusive forward (node_leaves n) (parted-after h))),
              )
              | inr h ↦ rw h (
                a,
                ap (λ t. t ++ remaining forward st)
                    (sym (kept-before key inclusive forward (node_leaves n) (parted-before h))),
              )
            ]
      beside-Sought backward inclusive =
          elim (Bool-cases
            (parted_at (common_prefix (prefix n) (drop depth key)) (prefix n) (drop depth key))) [
              | inr h ↦ rw h (
                ((path, w), a),
                ap (λ t. t ++ remaining backward st)
                    (edge-leaves backward n (path, w)
                      ∙ sym (kept-before key inclusive backward (node_leaves n) (parted-before h))),
              )
              | inl h ↦ rw h (
                a,
                ap (λ t. t ++ remaining backward st)
                    (sym (kept-after key inclusive backward (node_leaves n) (parted-after h))),
              )
            ]
