-- ===== src/Tree/Insert.antt =====
-- Lookup after insert, by induction on the branches that an insert takes.
use artmap.Prelude.{
  ℕ, zero, suc, ◌+◌, ◌<◌, ◌≡◌, refl, sym, ap, ◌∙◌, false, some, [], ◌∷◌, ◌++◌, length, drop, arith,
}
use artmap.Prelude.Bytes.{Key, bytes_eq, bytes_eq_refl, common_prefix-lt_length}
use artmap.Tree.{Leaf, Slot, leaf, node, prefix, exact_leaf, replace_child}
use artmap.Tree.Read.{get_slot}
use artmap.Tree.Write.{Mode, Done}
use artmap.Tree.Wf.{Wf, WfNode-find}
use artmap.Tree.Look.{drop_below, length_below}
use artmap.Tree.LeafSplit.{get_slot-leaf}
use artmap.Tree.NodeReads.{replace_child-Rewired, step}
use artmap.Tree.InsertLeaf.{
  holder, conclude_hit, conclude_miss, insert_at_leaf_self, insert_at_leaf_kept,
}
use artmap.Tree.InsertNode.{insert_exact_self, insert_exact_kept, Rewired-hit, Rewired-kept}
use artmap.Tree.InsertAdd.{Added-Rewired, add_child-Added}
use artmap.Tree.Split.{split_self, split_kept}
use artmap.Tree.Stands.{Stands, Stands-below, Continues-Stands}
use artmap.Tree.Inserts.{Inserts, at_null, at_leaf, at_split, at_exact, at_new, at_child}

module _ {ℓ} {V : Type ℓ} (mode : Mode) (new : Leaf V) where
  -- The key that was inserted is found, with the leaf that the outcome names.
  pub Inserts-self :
      (f : ℕ) {depth : ℕ} {s : Slot V} {d : Done V} (path : Key)
      → Inserts mode new depth s d
      → Wf path s
      → Stands new.key path depth
      → length (drop depth new.key) < f
      → get_slot f new.key depth d.slot ≡ some (holder new d.outcome)
  Inserts-self f path (at_null depth) w st lt = absurd w
  Inserts-self f path (at_leaf depth e) w st lt = insert_at_leaf_self mode new e f depth lt
  Inserts-self zero path (at_split depth n ip) w st lt = absurd (omega arith)
  Inserts-self zero path (at_exact depth n ip e) w st lt = absurd (omega arith)
  Inserts-self zero path (at_new depth n byte below ip e h r) w st lt = absurd (omega arith)
  Inserts-self zero path (at_child depth n byte below c ip e h i) w st lt = absurd (omega arith)
  Inserts-self (suc f) path (at_split depth n ip) w st lt =
      split_self f depth new n (common_prefix-lt_length (prefix n) (drop depth new.key) ip) lt
  Inserts-self (suc f) path (at_exact depth (node ty p ex cs) ip e) w st lt =
      insert_exact_self mode f depth new (node ty p ex cs) path ex refl w.2 st ip e
  Inserts-self (suc f) path (at_new depth (node ty p ex cs) byte below {d} ip e h r) w st lt =
      let a = add_child-Added new byte (node ty p ex cs) w.3 w.4 r in
      let q = length_below (drop depth new.key) (length p) e in
      ap (get_slot (suc f) new.key depth) a.slot_is
      ∙ (Rewired-hit f new.key depth byte (leaf new) (node ty p ex cs) _
            (Added-Rewired new byte (node ty p ex cs) d a) ip e
          ∙ get_slot-leaf f new.key (depth + length p + 1) new (omega arith)
          ∙ conclude_hit new.key new (bytes_eq_refl new.key))
      ∙ ap (λ o. some (holder new o)) (sym a.outcome_is)
  Inserts-self (suc f) path (at_child depth (node ty p ex cs) byte below c {d} ip e h i) w st lt =
      let wc = WfNode-find path byte c (node ty p ex cs) w h in
      Rewired-hit f new.key depth byte d.slot (node ty p ex cs)
        (replace_child byte d.slot (node ty p ex cs))
        (replace_child-Rewired byte d.slot (node ty p ex cs) h) ip e
      ∙ Inserts-self f ((path ++ p) ++ byte ∷ []) i wc.1 (Stands-below new.key path p depth st ip e)
          (let q = length_below (drop depth new.key) (length p) e in
            let r = ap length (drop_below new.key depth (length p) e) in omega arith)

  -- Every other key reads as before.
  pub Inserts-kept :
      (f : ℕ) (key : Key) {depth : ℕ} {s : Slot V} {d : Done V} (path : Key)
      → Inserts mode new depth s d
      → Wf path s
      → Stands new.key path depth
      → Stands key path depth
      → bytes_eq new.key key ≡ false
      → length (drop depth key) < f
      → get_slot f key depth d.slot ≡ get_slot f key depth s
  Inserts-kept f key path (at_null depth) w sn sk ne lt = absurd w
  Inserts-kept f key path (at_leaf depth e) w sn sk ne lt =
      insert_at_leaf_kept mode new e key path f depth sn
        (Continues-Stands path depth e sn.measured w) ne lt
  Inserts-kept zero key path (at_split depth n ip) w sn sk ne lt = absurd (omega arith)
  Inserts-kept zero key path (at_exact depth n ip e) w sn sk ne lt = absurd (omega arith)
  Inserts-kept zero key path (at_new depth n byte below ip e h r) w sn sk ne lt =
      absurd (omega arith)
  Inserts-kept zero key path (at_child depth n byte below c ip e h i) w sn sk ne lt =
      absurd (omega arith)
  Inserts-kept (suc f) key path (at_split depth n ip) w sn sk ne lt =
      split_kept f key depth new n (common_prefix-lt_length (prefix n) (drop depth new.key) ip) ne
        lt
  Inserts-kept (suc f) key path (at_exact depth n ip e) w sn sk ne lt =
      insert_exact_kept mode f key depth new n path (exact_leaf n) sn sk ne ip e
  Inserts-kept (suc f) key path (at_new depth (node ty p ex cs) byte below {d} ip e h r) w sn sk ne
        lt =
      let n = node ty p ex cs in
      let a = add_child-Added new byte n w.3 w.4 r in
      ap (get_slot (suc f) key depth) a.slot_is
      ∙ (Rewired-kept f key depth byte (leaf new) n _ (Added-Rewired new byte n d a) (λ below' iq q.
          get_slot-leaf f key (depth + length p + 1) new
            (let z = length_below (drop depth key) (length p) q in omega arith)
          ∙ conclude_miss key new ne
          ∙ sym (ap (step (get_slot f key) (depth + length p + 1)) h)))
  Inserts-kept (suc f) key path (at_child depth (node ty p ex cs) byte below c {d} ip e h i) w sn sk
        ne lt =
      let n = node ty p ex cs in
      let wc = WfNode-find path byte c (node ty p ex cs) w h in
      Rewired-kept f key depth byte d.slot n (replace_child byte d.slot n)
        (replace_child-Rewired byte d.slot n h)
        (λ below' iq q.
          Inserts-kept f key ((path ++ p) ++ byte ∷ []) i wc.1
            (Stands-below new.key path p depth sn ip e) (Stands-below key path p depth sk iq q) ne
            (let z = length_below (drop depth key) (length p) q in
              let r = ap length (drop_below key depth (length p) q) in omega arith)
          ∙ sym (ap (step (get_slot f key) (depth + length p + 1)) h))
