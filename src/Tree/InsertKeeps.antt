-- ===== src/Tree/InsertKeeps.antt =====
-- Well-formedness and the branches of an insert.
use artmap.Prelude.{
  ℕ, suc, ◌+◌, ◌≤◌, ◌<◌, ◌≡◌, refl, sym, ap, ◌∙◌, inl, inr, Option, none, some, [], ◌∷◌, ◌++◌,
  length, drop, take, get_or, cut_at, drop_at, length-take, length-drop, take-append-drop,
  Bool-cases, arith,
}
use mathlib.Core.Path.{subst}
use mathlib.Core.List.{append_assoc}
use artmap.Prelude.Bytes.{
  Key, bytes_eq, common_prefix, take-common_prefix, Diverge, common_prefix-Diverge,
  common_prefix-lt_length,
}
use artmap.Prelude.Entries.{find, insert}
use artmap.Tree.{
  capacity, Leaf, Slot, leaf, inner, Node, node, prefix, exact_leaf, node_type, entries, find_child,
  insert_child, store_prefix, fresh,
}
use artmap.Tree.Write.{
  Mode, replace, insert_if_absent, Done, bottom, build_chain, same_key, insert_at_leaf,
  insert_exact, split_node,
}
use artmap.Tree.Wf.{
  IsBytes, Continues, Wf, WfNode, WfNode-find, IsBytes-drop, IsBytes-take, get_or-lt,
}
use artmap.Tree.NodeWf.{insert_child-Wf, replace_child-Wf, set_exact-Wf, store_prefix-Wf, hang-Wf}
use artmap.Tree.Chain.{single, prefix-single}
use artmap.Tree.InsertAdd.{add_child-Added}
use artmap.Tree.Stands.{Stands, Stands-below, Stands-end, Continues-Stands}
use artmap.Tree.Inserts.{Inserts, at_null, at_leaf, at_split, at_exact, at_new, at_child}
use artmap.Tree.InsertWf.{single-Wf, chain-Wf, bottom-Wf}

-- The part of the key behind the path, cut at `n`.
cut_key :
    (key path : Key) (depth n : ℕ)
    → Stands key path depth
    → key ≡ (path ++ take n (drop depth key)) ++ drop n (drop depth key)
cut_key key path depth n st =
    st.joined
    ∙ ap (λ t. path ++ t) (sym (take-append-drop n (drop depth key)))
    ∙ sym (append_assoc path (take n (drop depth key)) (drop n (drop depth key)))

module _ {ℓ} {V : Type ℓ} where
  pub insert_at_leaf-Wf :
      (mode : Mode) (new e : Leaf V) (path : Key) (depth : ℕ)
      → Stands new.key path depth
      → IsBytes new.key
      → Continues path e
      → Wf path (insert_at_leaf mode new depth e).slot
  unfolding insert_at_leaf
  insert_at_leaf-Wf mode new e path depth sn bn w = elim (Bool-cases (bytes_eq e.key new.key)) [
    | inl same ↦ rw same (settled mode)
    | inr other ↦ rw other (
        unfold build_chain in
        chain-Wf (bottom (drop n es) e (drop n ns) new) (path ++ take n ns)
          (λ q p h short bp.
            bottom-Wf (drop n es) e (drop n ns) new q p (common_prefix-Diverge es ns)
              (cut_key e.key path depth n se
                ∙ ap (λ t. (path ++ t) ++ drop n es) (take-common_prefix es ns)
                ∙ ap (λ t. t ++ drop n es) (sym h))
              (cut_key new.key path depth n sn ∙ ap (λ t. t ++ drop n ns) (sym h)) w.2 bn
              (IsBytes-drop n es (IsBytes-drop depth e.key w.2))
              (IsBytes-drop n ns (IsBytes-drop depth new.key bn)) short bp)
          n path (take n ns) refl (IsBytes-take n ns (IsBytes-drop depth new.key bn))
          (omega (arith, length-take n ns)))
  ]
    where
      se : Stands e.key path depth
      se = Continues-Stands path depth e sn.measured w

      es : Key
      es = drop depth e.key

      ns : Key
      ns = drop depth new.key

      n : ℕ
      n = common_prefix es ns

      settled : (m : Mode) → Wf path (same_key m new e).slot
      settled insert_if_absent = unfold same_key in w
      settled replace = unfold same_key in (drop depth new.key, sn.joined, bn)

  single_free :
      (a : Key) (c : ℕ) (s : Slot V) (byte : ℕ) (d below : Key)
      → Diverge (c ∷ d) (byte ∷ below)
      → find_child byte (single a c s) ≡ none
  unfolding insert_child store_prefix fresh insert find_child find
  single_free a c s byte d below h = ground arith

  single_room :
      (a : Key) (c : ℕ) (s : Slot V)
      → suc (length (entries (single a c s))) ≤ capacity (node_type (single a c s))
  unfolding insert_child store_prefix fresh insert capacity
  single_room a c s = omega arith

  pub split_node-Wf :
      (new : Leaf V) (path : Key) (depth : ℕ) (n : Node V)
      → let rest = drop depth new.key in
        let m = common_prefix (prefix n) rest in
        m < length (prefix n)
        → Stands new.key path depth
        → IsBytes new.key
        → WfNode path n
        → WfNode path (split_node new (drop m rest) m n)
  unfolding split_node
  split_node-Wf new path depth (node ty p ex cs) lt st bn w =
      hang-Wf path (drop m rest) new top
        (single-Wf path (take m p) c low (omega (arith, length-take m p, w.0))
          (IsBytes-take m p w.1) (get_or-lt m p w.1 lt)
          (store_prefix-Wf path ((path ++ take m p) ++ c ∷ []) (drop (suc m) p) (node ty p ex cs) w
            (append_assoc (path ++ take m p) (c ∷ []) (drop (suc m) p)
              ∙ append_assoc path (take m p) (c ∷ drop (suc m) p)
              ∙ ap (λ t. path ++ t) (sym (cut_at m p 0 lt)))
            (omega (arith, length-drop (suc m) p, w.0)) (IsBytes-drop (suc m) p w.1)))
        (cut_key new.key path depth m st
          ∙ ap (λ t. (path ++ t) ++ drop m rest)
              (sym (take-common_prefix p rest) ∙ sym (prefix-single (take m p) c low)))
        bn (IsBytes-drop m rest (IsBytes-drop depth new.key bn))
        (λ byte below e. single_free (take m p) c low byte (drop (suc m) p) below (
          subst (Diverge (c ∷ drop (suc m) p)) e
            (rw (← drop_at m p 0 lt) (common_prefix-Diverge p rest))))
        (single_room (take m p) c low)
    where
      rest : Key
      rest = drop depth new.key

      m : ℕ
      m = common_prefix p rest

      c : ℕ
      c = get_or p m 0

      low : Slot V
      low = inner (store_prefix (drop (suc m) p) (node ty p ex cs))

      top : Node V
      top = single (take m p) c low

  insert_exact-Wf :
      (mode : Mode) (new : Leaf V) (path : Key) (n : Node V) (ex : Option (Leaf V))
      → WfNode path n
      → new.key ≡ path ++ prefix n
      → Wf path (insert_exact mode new n ex).slot
  unfolding insert_exact
  insert_exact-Wf mode new path n none w e = set_exact-Wf path (some new) n w e
  insert_exact-Wf replace new path n (some old) w e = set_exact-Wf path (some new) n w e
  insert_exact-Wf insert_if_absent new path n (some old) w e = w

  pub Inserts-Wf :
      (mode : Mode) (new : Leaf V) {depth : ℕ} {s : Slot V} {d : Done V} (path : Key)
      → Inserts mode new depth s d
      → Wf path s
      → Stands new.key path depth
      → IsBytes new.key
      → Wf path d.slot
  Inserts-Wf mode new path (at_null depth) w st bn = absurd w
  Inserts-Wf mode new path (at_leaf depth e) w st bn =
      insert_at_leaf-Wf mode new e path depth st bn w
  Inserts-Wf mode new path (at_split depth n ip) w st bn =
      split_node-Wf new path depth n (common_prefix-lt_length (prefix n) (drop depth new.key) ip) st
        bn w
  Inserts-Wf mode new path (at_exact depth n ip e) w st bn =
      insert_exact-Wf mode new path n (exact_leaf n) w
        (Stands-end new.key path (prefix n) depth st ip e)
  Inserts-Wf mode new path (at_new depth (node ty p ex cs) byte below {d} ip e h r) w st bn =
      let n = node ty p ex cs in
      let a = add_child-Added new byte n w.3 w.4 r in
      let sb = Stands-below new.key path p depth st ip e in
      let bs =
        subst IsBytes e
          (IsBytes-drop (length p) (drop depth new.key) (IsBytes-drop depth new.key bn)) in
      subst (Wf path) (sym a.slot_is) (
        insert_child-Wf path byte (leaf new) a.target n w h bs.0
          (drop (depth + length p + 1) new.key, sb.joined, bn) a.roomy)
  Inserts-Wf mode new path (at_child depth n byte below c {d} ip e h i) w st bn =
      replace_child-Wf path byte d.slot n w (
        Inserts-Wf mode new ((path ++ prefix n) ++ byte ∷ []) i (WfNode-find path byte c n w h).1
          (Stands-below new.key path (prefix n) depth st ip e) bn)
