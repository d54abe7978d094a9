-- ===== src/Tree/InsertBefore.antt =====
-- The outcome of an insert, and the lookup of its key before it.
use artmap.Prelude.{
  ℕ, zero, suc, ◌+◌, ◌<◌, ◌≡◌, refl, sym, ap, ◌∙◌, true, false, inl, inr, Option, none, some, [],
  ◌∷◌, ◌++◌, length, drop, Bool-cases, arith,
}
use artmap.Prelude.Bytes.{Key, bytes_eq, bytes_eq_refl, is_prefix_of}
use artmap.Tree.{Leaf, Slot, leaf, inner, Node, node, prefix, exact_leaf, find_child}
use artmap.Tree.Read.{get_slot, follow, conclude_exact}
use artmap.Tree.Write.{
  Mode, replace, insert_if_absent, Outcome, inserted, replaced, existing, Done, same_key,
  insert_at_leaf, insert_exact,
}
use artmap.Tree.Wf.{Wf, EndsAt, WfNode-find}
use artmap.Tree.Look.{behind, drop_below, length_below, get_slot-inner}
use artmap.Tree.LeafSplit.{get_slot-leaf}
use artmap.Tree.NodeReads.{step, follow-byte}
use artmap.Tree.InsertLeaf.{conclude_hit, conclude_miss}
use artmap.Tree.InsertNode.{get_slot_through}
use artmap.Tree.InsertAdd.{add_child-Added}
use artmap.Tree.Stands.{Stands, Stands-below, Stands-end}
use artmap.Tree.Inserts.{Inserts, at_null, at_leaf, at_split, at_exact, at_new, at_child}

module _ {ℓ} {V : Type ℓ} where
  -- The outcome in a mode, by the leaf that the key had.
  abbrev pub outcome_of : Mode → Option (Leaf V) → Outcome V
  outcome_of mode none = inserted
  outcome_of replace (some old) = replaced old
  outcome_of insert_if_absent (some old) = existing old

  same_key_outcome :
      (mode : Mode) (new e : Leaf V) → (same_key mode new e).outcome ≡ outcome_of mode (some e)
  unfolding same_key
  same_key_outcome replace new e = refl
  same_key_outcome insert_if_absent new e = refl

  insert_exact_outcome :
      (mode : Mode) (new : Leaf V) (n : Node V) (ex : Option (Leaf V))
      → (insert_exact mode new n ex).outcome ≡ outcome_of mode ex
  unfolding insert_exact
  insert_exact_outcome mode new n none = refl
  insert_exact_outcome replace new n (some old) = refl
  insert_exact_outcome insert_if_absent new n (some old) = refl

  leaf_before :
      (mode : Mode) (new e : Leaf V) (f depth : ℕ)
      → 0 < f
      → (insert_at_leaf mode new depth e).outcome
        ≡ outcome_of mode (get_slot f new.key depth (leaf e))
  unfolding insert_at_leaf
  leaf_before mode new e f depth lt = elim (Bool-cases (bytes_eq e.key new.key)) [
    | inl same ↦ rw same (
        same_key_outcome mode new e
        ∙ sym (
            ap (outcome_of mode)
              (get_slot-leaf f new.key depth e lt ∙ conclude_hit new.key e same)))
    | inr other ↦ rw other (
        sym (
          ap (outcome_of mode)
            (get_slot-leaf f new.key depth e lt ∙ conclude_miss new.key e other)))
  ]

  pub conclude_exact_end :
      (key path : Key) (ex : Option (Leaf V))
      → EndsAt path ex
      → key ≡ path
      → conclude_exact key ex ≡ ex
  unfolding conclude_exact
  conclude_exact_end key path none w e = refl
  conclude_exact_end key path (some l) w e =
      conclude_hit key l (ap (λ t. bytes_eq t key) (w ∙ sym e) ∙ bytes_eq_refl key)

  follow-exact :
      (key : Key) (next : ℕ → Slot V → Option (Leaf V)) (nd : ℕ) (n : Node V)
      → follow key next nd n [] ≡ conclude_exact key (exact_leaf n)
  unfolding follow
  follow-exact key next nd n = refl

  behind_out :
      (p : Key) (g : Key → Option (Leaf V)) (rest : Key)
      → is_prefix_of p rest ≡ false
      → behind p g rest ≡ none
  behind_out p g rest h = rw h

  -- The last step of a lookup whose key ends in the node.
  pub get_slot-exact :
      (f : ℕ) (key path : Key) (depth : ℕ) (n : Node V)
      → EndsAt (path ++ prefix n) (exact_leaf n)
      → Stands key path depth
      → is_prefix_of (prefix n) (drop depth key) ≡ true
      → drop (length (prefix n)) (drop depth key) ≡ []
      → get_slot (suc f) key depth (inner n) ≡ exact_leaf n
  get_slot-exact f key path depth n w st ip e =
      get_slot_through f key depth n [] ip e
      ∙ follow-exact key (get_slot f key) (depth + length (prefix n)) n
      ∙ conclude_exact_end key (path ++ prefix n) (exact_leaf n) w
          (Stands-end key path (prefix n) depth st ip e)

  -- A step of a lookup through a byte.
  pub get_slot-byte :
      (f : ℕ) (key : Key) (depth : ℕ) (n : Node V) (byte : ℕ) (below : Key) {o : Option (Slot V)}
      → is_prefix_of (prefix n) (drop depth key) ≡ true
      → drop (length (prefix n)) (drop depth key) ≡ byte ∷ below
      → find_child byte n ≡ o
      → get_slot (suc f) key depth (inner n)
        ≡ step (get_slot f key) (depth + length (prefix n) + 1) o
  get_slot-byte f key depth n byte below ip e h =
      get_slot_through f key depth n (byte ∷ below) ip e
      ∙ follow-byte key (get_slot f key) (depth + length (prefix n)) n byte below
      ∙ ap (step (get_slot f key) (depth + length (prefix n) + 1)) h

  pub get_slot-out :
      (f : ℕ) (key : Key) (depth : ℕ) (n : Node V)
      → is_prefix_of (prefix n) (drop depth key) ≡ false
      → get_slot f key depth (inner n) ≡ none
  unfolding get_slot
  get_slot-out zero key depth n h = refl
  get_slot-out (suc f) key depth n h =
      get_slot-inner f key depth n
      ∙ behind_out (prefix n) (follow key (get_slot f key) (depth + length (prefix n)) n)
          (drop depth key) h

module _ {ℓ} {V : Type ℓ} (mode : Mode) (new : Leaf V) where
  pub Inserts-before :
      (f : ℕ) {depth : ℕ} {s : Slot V} {d : Done V} (path : Key)
      → Inserts mode new depth s d
      → Wf path s
      → Stands new.key path depth
      → length (drop depth new.key) < f
      → d.outcome ≡ outcome_of mode (get_slot f new.key depth s)
  Inserts-before f path (at_null depth) w st lt = absurd w
  Inserts-before f path (at_leaf depth e) w st lt = leaf_before mode new e f depth (omega arith)
  Inserts-before f path (at_split depth n ip) w st lt =
      sym (ap (outcome_of mode) (get_slot-out f new.key depth n ip))
  Inserts-before zero path (at_exact depth n ip e) w st lt = absurd (omega arith)
  Inserts-before zero path (at_new depth n byte below ip e h r) w st lt = absurd (omega arith)
  Inserts-before zero path (at_child depth n byte below c ip e h i) w st lt = absurd (omega arith)
  Inserts-before (suc f) path (at_exact depth (node ty p ex cs) ip e) w st lt =
      insert_exact_outcome mode new (node ty p ex cs) ex
      ∙ sym
          (ap (outcome_of mode) (get_slot-exact f new.key path depth (node ty p ex cs) w.2 st ip e))
  Inserts-before (suc f) path (at_new depth (node ty p ex cs) byte below {d} ip e h r) w st lt =
      let a = add_child-Added new byte (node ty p ex cs) w.3 w.4 r in
      a.outcome_is
      ∙ sym
          (ap (outcome_of mode) (get_slot-byte f new.key depth (node ty p ex cs) byte below ip e h))
  Inserts-before (suc f) path (at_child depth (node ty p ex cs) byte below c {d} ip e h i) w st lt =
      let wc = WfNode-find path byte c (node ty p ex cs) w h in
      Inserts-before f ((path ++ p) ++ byte ∷ []) i wc.1 (Stands-below new.key path p depth st ip e)
        (let q = length_below (drop depth new.key) (length p) e in
          let r = ap length (drop_below new.key depth (length p) e) in omega arith)
      ∙ sym
          (ap (outcome_of mode) (get_slot-byte f new.key depth (node ty p ex cs) byte below ip e h))
