-- ===== src/Tree/InsertWf.antt =====
-- Well-formedness of the nodes that an insert builds at a leaf.
use artmap.Prelude.{
  ℕ, zero, suc, ◌≤◌, ◌<◌, ◌≡◌, refl, sym, ap, ◌∙◌, inl, inr, none, [], ◌∷◌, ◌++◌, length, drop,
  take, get_or, cut_at, length-take, length-drop, ltb, ltb→lt, ltb-false, Bool-cases, arith,
}
use mathlib.Core.Path.{subst}
use mathlib.Core.List.{append_assoc}
use artmap.Prelude.Bytes.{Key, Diverge}
use artmap.Prelude.Entries.{find, insert}
use artmap.Tree.{
  node4, capacity, Leaf, Slot, Node, node, Children, node_type, entries, find_child, insert_child,
  set_exact_leaf, store_prefix, fresh,
}
use artmap.Tree.Write.{hang, bottom, chain}
use artmap.Tree.Wf.{IsBytes, Wf, WfNode, IsBytes-drop, IsBytes-take, get_or-lt}
use artmap.Tree.NodeWf.{insert_child-Wf, fresh-Wf, hang-Wf}
use artmap.Tree.Chain.{single, chain_zero, chain_short, chain_long}
use artmap.Tree.LeafSplit.{prefix-hang}

module _ {ℓ} {V : Type ℓ} where
  pub single-Wf :
      (path a : Key) (c : ℕ) (s : Slot V)
      → length a ≤ 16
      → IsBytes a
      → c < 256
      → Wf ((path ++ a) ++ c ∷ []) s
      → WfNode path (single a c s)
  unfolding insert_child store_prefix fresh find_child find
  single-Wf path a c s short bytes lt w =
      insert_child-Wf path c s node4 (node node4 a none Children.nil)
        (fresh-Wf V path a short bytes) refl lt w (unfold capacity in omega arith)

  module _ (bot : Key → Node V) (full : Key)
      (bot_wf : (q p : Key) → q ++ p ≡ full → length p ≤ 16 → IsBytes p → WfNode q (bot p)) where
    -- A chain at `path` over the bytes up to its bottom node.
    pub chain-Wf :
        (k : ℕ) (path pre : Key)
        → path ++ pre ≡ full
        → IsBytes pre
        → length pre ≤ k
        → Wf path (chain k bot pre)
    chain-Wf zero path pre e bytes le =
        subst (Wf path) (sym (chain_zero bot pre)) (bot_wf path pre e (omega arith) bytes)
    chain-Wf (suc k) path pre e bytes le = elim (Bool-cases (ltb 16 (length pre))) [
      | inr short ↦
          subst (Wf path) (sym (chain_short k bot pre short))
            (bot_wf path pre e (ltb-false 16 (length pre) short) bytes)
      | inl long ↦
          let lt = ltb→lt 16 (length pre) long in
          subst (Wf path) (sym (chain_long k bot pre long)) (
            single-Wf path (take 16 pre) (get_or pre 16 0) (chain k bot (drop 17 pre))
              (omega (arith, length-take 16 pre)) (IsBytes-take 16 pre bytes)
              (get_or-lt 16 pre bytes lt)
              (chain-Wf k ((path ++ take 16 pre) ++ get_or pre 16 0 ∷ []) (drop 17 pre)
                (append_assoc (path ++ take 16 pre) (get_or pre 16 0 ∷ []) (drop 17 pre)
                  ∙ append_assoc path (take 16 pre) (get_or pre 16 0 ∷ drop 17 pre)
                  ∙ ap (λ t. path ++ t) (sym (cut_at 16 pre 0 lt))
                  ∙ e)
                (IsBytes-drop 17 pre bytes) (omega (arith, length-drop 17 pre))))
    ]

  -- The first of two leaves in a fresh node leaves room and the other's byte free.
  hang_first :
      (e : Key) (l : Leaf V) (p : Key)
      → (length (entries (hang e l (store_prefix p (fresh node4)))) ≤ 1)
        × (node_type (hang e l (store_prefix p (fresh node4))) ≡ node4)
  unfolding hang set_exact_leaf insert_child store_prefix fresh insert
  hang_first [] l p = (omega arith, refl)
  hang_first (b ∷ e) l p = (omega arith, refl)

  hang_free :
      (e : Key) (l : Leaf V) (p : Key) (byte : ℕ) (below : Key)
      → Diverge e (byte ∷ below)
      → find_child byte (hang e l (store_prefix p (fresh node4))) ≡ none
  unfolding hang set_exact_leaf insert_child store_prefix fresh insert find_child find
  hang_free [] l p byte below d = refl
  hang_free (b ∷ e) l p byte below d = ground arith

  pub bottom-Wf :
      (ea : Key) (a : Leaf V) (eb : Key) (b : Leaf V) (q p : Key)
      → Diverge ea eb
      → a.key ≡ (q ++ p) ++ ea
      → b.key ≡ (q ++ p) ++ eb
      → IsBytes a.key
      → IsBytes b.key
      → IsBytes ea
      → IsBytes eb
      → length p ≤ 16
      → IsBytes p
      → WfNode q (bottom ea a eb b p)
  unfolding bottom
  bottom-Wf ea a eb b q p d ka kb ba bb bea beb short bp =
      let base = store_prefix p (fresh node4) in
      let first = hang_first ea a p in
      hang-Wf q eb b (hang ea a base)
        (hang-Wf q ea a base (fresh-Wf V q p short bp) (unfold store_prefix fresh in ka) ba bea
          (λ byte below e. unfold find_child find store_prefix fresh in refl)
          (unfold store_prefix fresh capacity in omega arith))
        (kb
          ∙ ap (λ t. (q ++ t) ++ eb)
              (sym (prefix-hang ea a base ∙ (unfold store_prefix fresh in refl))))
        bb beb (λ byte below e. hang_free ea a p byte below (subst (Diverge ea) e d))
        (rw first.1 (unfold capacity in omega (arith, first.0)))
