-- ===== src/Tree/RemoveParent.antt =====
-- What a remove below a node does to the node: its slot was rewritten, or unlinked.
use artmap.Prelude.{
  ℕ, zero, suc, ◌+◌, ◌<◌, ◌≡◌, sym, ap, ◌∙◌, true, none, some, [], ◌∷◌, ◌++◌, length, drop, arith,
}
use mathlib.Core.Path.{subst}
use artmap.Prelude.Bytes.{Key, is_prefix_of}
use artmap.Tree.{
  Slot, null, leaf, inner, Node, node, prefix, find_child, remove_child, replace_child,
}
use artmap.Tree.Read.{get_slot}
use artmap.Tree.Remove.{Removed, relink}
use artmap.Tree.Wf.{Wf, WfNode}
use artmap.Tree.Look.{drop_below, length_below}
use artmap.Tree.NodeReads.{step}
use artmap.Tree.InsertBefore.{get_slot-byte}
use artmap.Tree.NodeWf.{replace_child-Wf}
use artmap.Tree.Stands.{Stands, Stands-below}
use artmap.Tree.Rerouted.{remove_child-Rerouted, replace_child-Rerouted, get_slot-null}
use artmap.Tree.RemoveStep.{NullOrWf, remove_child-Wf, dropped, Gone, Rerouted-dropped}

pub below_lt :
    (key : Key) (depth n : ℕ) {byte : ℕ} {below : Key} (f : ℕ)
    → drop n (drop depth key) ≡ byte ∷ below
    → length (drop depth key) < suc f
    → length (drop (depth + n + 1) key) < f
below_lt key depth n f e lt =
    let q = length_below (drop depth key) n e in
    let r = ap length (drop_below key depth n e) in omega arith

module _ {ℓ} {V : Type ℓ} (key : Key) where
  -- The parent of a slot that was written.
  replaced-Gone :
      (path : Key) (depth byte : ℕ) {below : Key} (c s : Slot V) (n : Node V) (d : Removed V)
      → d.slot ≡ s
      → Wf ((path ++ prefix n) ++ byte ∷ []) s
      → WfNode path n
      → Stands key path depth
      → is_prefix_of (prefix n) (drop depth key) ≡ true
      → drop (length (prefix n)) (drop depth key) ≡ byte ∷ below
      → find_child byte n ≡ some c
      → Gone key ((path ++ prefix n) ++ byte ∷ []) (depth + length (prefix n) + 1) c d
      → Gone key path depth (inner n) (record d { slot = inner (replace_child byte s n) })
  replaced-Gone path depth byte {below} c s (node ty p ex cs) d es ws w st ip e h g = record {
    was = was;
    keeps = replace_child-Wf path byte s (node ty p ex cs) w ws;
    reads = reads;
  }
    where
      was :
          (f : ℕ)
          → length (drop depth key) < f
          → get_slot f key depth (inner (node ty p ex cs)) ≡ some d.taken_leaf
      was zero lt = absurd (omega arith)
      was (suc f) lt =
          get_slot-byte f key depth (node ty p ex cs) byte below ip e h
          ∙ g.was f (below_lt key depth (length p) f e lt)

      reads :
          (f : ℕ) (k : Key)
          → Stands k path depth
          → length (drop depth k) < f
          → get_slot f k depth (inner (replace_child byte s (node ty p ex cs)))
            ≡ dropped key (λ j. get_slot f j depth (inner (node ty p ex cs))) k
      reads zero k sk lt = absurd (omega arith)
      reads (suc f) k sk lt =
          Rerouted-dropped key f depth path byte (some s) (node ty p ex cs)
            (replace_child byte s (node ty p ex cs)) k
            (replace_child-Rerouted byte s (node ty p ex cs) h) ip e
            (λ below' iq q.
              ap (get_slot f k (depth + length p + 1)) (sym es)
              ∙ g.reads f k (Stands-below k path p depth sk iq q)
                  (below_lt k depth (length p) f q lt)
              ∙ ap (λ o. dropped key (λ j. step (get_slot f j) (depth + length p + 1) o) k) (sym h))

  -- The parent of a slot from which the leaf went.
  pub relink-Gone :
      (path : Key) (depth byte : ℕ) {below : Key} (c s : Slot V) (n : Node V) (d : Removed V)
      → d.slot ≡ s
      → WfNode path n
      → Stands key path depth
      → is_prefix_of (prefix n) (drop depth key) ≡ true
      → drop (length (prefix n)) (drop depth key) ≡ byte ∷ below
      → find_child byte n ≡ some c
      → Gone key ((path ++ prefix n) ++ byte ∷ []) (depth + length (prefix n) + 1) c d
      → Gone key path depth (inner n) (relink byte n d s)
  unfolding relink
  relink-Gone path depth byte {below} c null (node ty p ex cs) d es w st ip e h g = record {
    was = was;
    keeps = remove_child-Wf path byte (node ty p ex cs) w h;
    reads = reads;
  }
    where
      was :
          (f : ℕ)
          → length (drop depth key) < f
          → get_slot f key depth (inner (node ty p ex cs)) ≡ some d.taken_leaf
      was zero lt = absurd (omega arith)
      was (suc f) lt =
          get_slot-byte f key depth (node ty p ex cs) byte below ip e h
          ∙ g.was f (below_lt key depth (length p) f e lt)

      reads :
          (f : ℕ) (k : Key)
          → Stands k path depth
          → length (drop depth k) < f
          → get_slot f k depth (inner (remove_child byte (node ty p ex cs)))
            ≡ dropped key (λ j. get_slot f j depth (inner (node ty p ex cs))) k
      reads zero k sk lt = absurd (omega arith)
      reads (suc f) k sk lt =
          Rerouted-dropped key f depth path byte none (node ty p ex cs)
            (remove_child byte (node ty p ex cs)) k
            (remove_child-Rerouted byte (node ty p ex cs) w.3) ip e
            (λ below' iq q.
              sym (get_slot-null f k (depth + length p + 1))
              ∙ ap (get_slot f k (depth + length p + 1)) (sym es)
              ∙ g.reads f k (Stands-below k path p depth sk iq q)
                  (below_lt k depth (length p) f q lt)
              ∙ ap (λ o. dropped key (λ j. step (get_slot f j) (depth + length p + 1) o) k) (sym h))
  relink-Gone path depth byte c (leaf l) n d es w st ip e h g =
      replaced-Gone path depth byte c (leaf l) n d es
        (subst (NullOrWf ((path ++ prefix n) ++ byte ∷ [])) es g.keeps) w st ip e h g
  relink-Gone path depth byte c (inner m) n d es w st ip e h g =
      replaced-Gone path depth byte c (inner m) n d es
        (subst (NullOrWf ((path ++ prefix n) ++ byte ∷ [])) es g.keeps) w st ip e h g
