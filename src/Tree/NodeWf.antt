-- ===== src/Tree/NodeWf.antt =====
-- Well-formedness and the operations on one node.
use artmap.Prelude.{
  ℕ, suc, ◌≤◌, ◌<◌, ◌≡◌, refl, sym, ◌∙◌, Option, none, some, [], ◌∷◌, ◌++◌, length, arith,
}
use mathlib.Core.Path.{subst}
use mathlib.Core.List.{append_assoc, append-nil}
use artmap.Prelude.Bytes.{Key}
use artmap.Prelude.Entries.{
  insert, replace, insert-IsSorted, replace-IsSorted, length-insert, length-replace,
}
use artmap.Tree.{
  NodeType, node4, capacity, max_prefix_len, Leaf, Slot, leaf, Node, node, prefix, node_type,
  entries, to_entries, to_entries-of_entries, find_child, insert_child, replace_child,
  set_exact_leaf, store_prefix, fresh, retype,
}
use artmap.Tree.Write.{hang}
use artmap.Tree.Wf.{
  IsBytes, EndsAt, Wf, WfNode, WfAll, WfAll-entries, WfEntries-of, WfEntries-insert,
  WfEntries-replace,
}

pub fresh-Wf {ℓ} :
    (V : Type ℓ) (path p : Key)
    → length p ≤ max_prefix_len
    → IsBytes p
    → WfNode {V = V} path (store_prefix p (fresh node4))
unfolding store_prefix fresh
fresh-Wf V path p short bytes = (short, bytes, tt, tt, omega arith, tt)

module _ {ℓ} {V : Type ℓ} where
  pub insert_child-Wf :
      (path : Key) (byte : ℕ) (s : Slot V) (ty : NodeType) (n : Node V)
      → WfNode path n
      → find_child byte n ≡ none
      → byte < 256
      → Wf ((path ++ prefix n) ++ byte ∷ []) s
      → suc (length (entries n)) ≤ capacity ty
      → WfNode path (insert_child byte s (retype ty n))
  unfolding insert_child find_child
  insert_child-Wf path byte s ty (node t p ex cs) w absent lt ws room = (
    w.0,
    w.1,
    w.2,
    rw (to_entries-of_entries (insert byte s (to_entries cs)))
        (insert-IsSorted byte s (to_entries cs) absent w.3),
    rw (to_entries-of_entries (insert byte s (to_entries cs)), length-insert byte s (to_entries cs))
        room,
    WfEntries-of (path ++ p) (insert byte s (to_entries cs)) (
        WfEntries-insert (path ++ p) byte s (to_entries cs) lt ws
          (WfAll-entries (path ++ p) cs w.5)),
  )

  pub replace_child-Wf :
      (path : Key) (byte : ℕ) (s : Slot V) (n : Node V)
      → WfNode path n
      → Wf ((path ++ prefix n) ++ byte ∷ []) s
      → WfNode path (replace_child byte s n)
  unfolding replace_child
  replace_child-Wf path byte s (node t p ex cs) w ws = (
    w.0,
    w.1,
    w.2,
    rw (to_entries-of_entries (replace byte s (to_entries cs)))
        (replace-IsSorted byte s (to_entries cs) w.3),
    rw
        (
          to_entries-of_entries (replace byte s (to_entries cs)),
          length-replace byte s (to_entries cs),
        )
        w.4,
    WfEntries-of (path ++ p) (replace byte s (to_entries cs)) (
        WfEntries-replace (path ++ p) byte s (to_entries cs) ws (WfAll-entries (path ++ p) cs w.5)),
  )

  pub set_exact-Wf :
      (path : Key) (ex' : Option (Leaf V)) (n : Node V)
      → WfNode path n
      → EndsAt (path ++ prefix n) ex'
      → WfNode path (set_exact_leaf ex' n)
  unfolding set_exact_leaf
  set_exact-Wf path ex' (node t p ex cs) w h = (w.0, w.1, h, w.3, w.4, w.5)

  -- The prefix moves between the path and the node.
  pub store_prefix-Wf :
      (path path' p' : Key) (n : Node V)
      → WfNode path n
      → path' ++ p' ≡ path ++ prefix n
      → length p' ≤ max_prefix_len
      → IsBytes p'
      → WfNode path' (store_prefix p' n)
  unfolding store_prefix
  store_prefix-Wf path path' p' (node t p ex cs) w e short bytes = (
    short,
    bytes,
    subst (λ q. EndsAt q ex) (sym e) w.2,
    w.3,
    w.4,
    subst (λ q. WfAll q cs) (sym e) w.5,
  )

  -- A leaf hung into a node: it ends there, or continues at a byte that is free.
  pub hang-Wf :
      (path e : Key) (l : Leaf V) (n : Node V)
      → WfNode path n
      → l.key ≡ (path ++ prefix n) ++ e
      → IsBytes l.key
      → IsBytes e
      → ((byte : ℕ) (below : Key) → e ≡ byte ∷ below → find_child byte n ≡ none)
      → suc (length (entries n)) ≤ capacity (node_type n)
      → WfNode path (hang e l n)
  unfolding hang
  hang-Wf path [] l n w k bytes be free room =
      set_exact-Wf path (some l) n w (k ∙ append-nil (path ++ prefix n))
  hang-Wf path (byte ∷ below) l n w k bytes be free room =
      subst (λ t. WfNode path (insert_child byte (leaf l) t)) (retype_self n)
        (insert_child-Wf path byte (leaf l) (node_type n) n w (free byte below refl) be.0
          (below, k ∙ sym (append_assoc (path ++ prefix n) (byte ∷ []) below), bytes) room)
    where
      retype_self : (m : Node V) → retype (node_type m) m ≡ m
      retype_self (node ty p ex cs) = refl
