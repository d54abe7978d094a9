-- ===== src/Tree/InsertFills.antt =====
-- An insert of src/raw/write.rs makes no empty node.
use artmap.Prelude.{
  ℕ, zero, suc, ◌≡◌, sym, inl, inr, Option, none, some, [], ◌∷◌, ◌++◌, length, drop, take, get_or,
  ltb, Bool-cases,
}
use mathlib.Core.Path.{subst}
use artmap.Prelude.Bytes.{Key, bytes_eq, common_prefix}
use artmap.Tree.{
  NodeType, node4, Leaf, Slot, null, leaf, inner, Node, node, exact_leaf, prefix, insert_child,
  set_exact_leaf, store_prefix, fresh, retype,
}
use artmap.Tree.Write.{
  Mode, replace, insert_if_absent, Done, hang, bottom, chain, build_chain, same_key, insert_at_leaf,
  insert_exact, split_node, insert_with,
}
use artmap.Tree.Wf.{IsTree, WfNode-find}
use artmap.Tree.RemoveStep.{NullOrWf}
use artmap.Tree.FollowUp.{Wf-NullOrWf}
use artmap.Tree.Chain.{chain_zero, chain_short, chain_long}
use artmap.Tree.InsertAdd.{add_child-Added}
use artmap.Tree.Inserts.{
  Inserts, at_null, at_leaf, at_split, at_exact, at_new, at_child, insert_slot-Inserts,
}
use artmap.Tree.Filled.{
  Filled, FilledNode, Kids, FilledNode-Kids, Kids-Filled, insert_child-Filled, replace_child-Filled,
}
use artmap.Tree.Unlinks.{found-Filled}

fresh-Kids {ℓ} : (V : Type ℓ) (p : Key) (ty : NodeType) → Kids (store_prefix {V = V} p (fresh ty))
unfolding store_prefix fresh
fresh-Kids V p ty = tt

module _ {ℓ} {V : Type ℓ} where
  set_exact-Filled : (l : Leaf V) (n : Node V) → Kids n → FilledNode (set_exact_leaf (some l) n)
  unfolding set_exact_leaf
  set_exact-Filled l (node ty p ex cs) k = Kids-Filled (node ty p (some l) cs) tt k

  store_prefix-Filled : (p : Key) (n : Node V) → FilledNode n → FilledNode (store_prefix p n)
  unfolding store_prefix
  store_prefix-Filled p (node ty q ex cs) w = w

  hang-Filled : (e : Key) (l : Leaf V) (n : Node V) → Kids n → FilledNode (hang e l n)
  unfolding hang
  hang-Filled [] l n k = set_exact-Filled l n k
  hang-Filled (b ∷ e) l n k = insert_child-Filled b (leaf l) n k tt

  bottom-Filled :
      (ea : Key) (a : Leaf V) (eb : Key) (b : Leaf V) (pre : Key)
      → FilledNode (bottom ea a eb b pre)
  unfolding bottom
  bottom-Filled ea a eb b pre =
      let base = store_prefix pre (fresh node4) in
      hang-Filled eb b (hang ea a base)
        (FilledNode-Kids (hang ea a base) (hang-Filled ea a base (fresh-Kids V pre node4)))

  chain-Filled :
      (bot : Key → Node V)
      → ((p : Key) → FilledNode (bot p))
      → (k : ℕ) (pre : Key) → Filled (chain k bot pre)
  chain-Filled bot w zero pre = subst Filled (sym (chain_zero bot pre)) (w pre)
  chain-Filled bot w (suc k) pre = elim (Bool-cases (ltb 16 (length pre))) [
    | inr short ↦ subst Filled (sym (chain_short k bot pre short)) (w pre)
    | inl long ↦ subst Filled (sym (chain_long k bot pre long)) (
        insert_child-Filled (get_or pre 16 0) (chain k bot (drop 17 pre))
          (store_prefix (take 16 pre) (fresh node4)) (fresh-Kids V (take 16 pre) node4)
          (chain-Filled bot w k (drop 17 pre)))
  ]

  insert_at_leaf-Filled :
      (mode : Mode) (new : Leaf V) (depth : ℕ) (e : Leaf V)
      → Filled (insert_at_leaf mode new depth e).slot
  unfolding insert_at_leaf build_chain
  insert_at_leaf-Filled mode new depth e = elim (Bool-cases (bytes_eq e.key new.key)) [
    | inl same ↦ rw same (settled mode)
    | inr other ↦
        let es = drop depth e.key in
        let ns = drop depth new.key in
        let n = common_prefix es ns in
        rw other (
          chain-Filled (bottom (drop n es) e (drop n ns) new)
            (bottom-Filled (drop n es) e (drop n ns) new) n (take n ns))
  ]
    where
      settled : (m : Mode) → Filled (same_key m new e).slot
      settled insert_if_absent = unfold same_key in tt
      settled replace = unfold same_key in tt

  insert_exact-Filled :
      (mode : Mode) (new : Leaf V) (n : Node V) (o : Option (Leaf V))
      → FilledNode n
      → Filled (insert_exact mode new n o).slot
  unfolding insert_exact
  insert_exact-Filled mode new n none w = set_exact-Filled new n (FilledNode-Kids n w)
  insert_exact-Filled replace new n (some old) w = set_exact-Filled new n (FilledNode-Kids n w)
  insert_exact-Filled insert_if_absent new n (some old) w = w

  split_node-Filled :
      (new : Leaf V) (after : Key) (m : ℕ) (n : Node V)
      → FilledNode n
      → FilledNode (split_node new after m n)
  unfolding split_node
  split_node-Filled new after m n w =
      let low = store_prefix (drop (suc m) (prefix n)) n in
      let base = store_prefix (take m (prefix n)) (fresh node4) in
      let top = insert_child (get_or (prefix n) m 0) (inner low) base in
      hang-Filled after new top (
        FilledNode-Kids top (
          insert_child-Filled (get_or (prefix n) m 0) (inner low) base
            (fresh-Kids V (take m (prefix n)) node4)
            (store_prefix-Filled (drop (suc m) (prefix n)) n w)))

  retype-Kids : (ty : NodeType) (n : Node V) → Kids n → Kids (retype ty n)
  retype-Kids ty (node t p ex cs) k = k

  Inserts-Filled :
      (mode : Mode) (new : Leaf V) {depth : ℕ} {s : Slot V} {d : Done V} (path : Key)
      → Inserts mode new depth s d
      → NullOrWf path s
      → Filled s
      → Filled d.slot
  Inserts-Filled mode new path (at_null depth) w v = tt
  Inserts-Filled mode new path (at_leaf depth e) w v = insert_at_leaf-Filled mode new depth e
  Inserts-Filled mode new path (at_split depth n ip) w v =
      let m = common_prefix (prefix n) (drop depth new.key) in
      split_node-Filled new (drop m (drop depth new.key)) m n v
  Inserts-Filled mode new path (at_exact depth n ip e) w v =
      insert_exact-Filled mode new n (exact_leaf n) v
  Inserts-Filled mode new path (at_new depth (node ty p ex cs) byte below {d} ip e h r) w v =
      let n = node ty p ex cs in
      let a = add_child-Added new byte n w.3 w.4 r in
      subst Filled (sym a.slot_is) (
        insert_child-Filled byte (leaf new) (retype a.target n)
          (retype-Kids a.target n (FilledNode-Kids n v)) tt)
  Inserts-Filled mode new path (at_child depth n byte below c {d} ip e h i) w v =
      let at = (path ++ prefix n) ++ byte ∷ [] in
      replace_child-Filled byte d.slot n h (FilledNode-Kids n v) (
        Inserts-Filled mode new at i (Wf-NullOrWf at c (WfNode-find path byte c n w h).1)
          (found-Filled byte n (FilledNode-Kids n v) h))

  -- An insert into a well-formed tree without an empty inner node.
  pub insert_with-Filled :
      (mode : Mode) (new : Leaf V) (root : Slot V) {d : Done V}
      → IsTree root
      → Filled root
      → insert_with mode new root ≡ some d
      → Filled d.slot
  unfolding insert_with
  insert_with-Filled mode new root {d} w v h =
      Inserts-Filled mode new [] (insert_slot-Inserts mode new (suc (length new.key)) 0 root d h)
        (at_root root w) v
    where
      at_root : (s : Slot V) → IsTree s → NullOrWf [] s
      at_root null w = tt
      at_root (leaf l) w = w
      at_root (inner n) w = w
