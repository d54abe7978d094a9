-- ===== src/Tree/Refines.antt =====
-- The lookup of src/raw/read.rs and the leaves of the tree.
use artmap.Prelude.{
  ℕ, zero, suc, ◌+◌, ◌<◌, ◌≡◌, refl, ap, sym, ◌∙◌, true, false, inl, inr, Option, none, some, List,
  [], ◌∷◌, ◌++◌, length, drop, Bool-cases, List-cases, arith,
}
use mathlib.Core.Bool.{false≢true}
use mathlib.Core.List.{append_assoc, append-nil}
use artmap.Prelude.Bytes.{
  Key, bytes_eq, bytes_eq-append, bytes_eq_refl, bytes_eq_sound, is_prefix_of, is_prefix_of-append,
  is_prefix_of_sound,
}
use artmap.Tree.{Leaf, Slot, null, leaf, inner, Node, node, prefix, exact_leaf, find_child}
use artmap.Tree.Read.{get_slot, get, conclude}
use artmap.Tree.Wf.{Wf, WfNode, IsTree, EndsAt, WfNode-find}
use artmap.Tree.Look.{drop_below, length_below}
use artmap.Tree.LeafSplit.{get_slot-leaf}
use artmap.Tree.NodeReads.{step}
use artmap.Tree.Stands.{Stands, Stands-root, Stands-below, Stands-end}
use artmap.Tree.InsertBefore.{get_slot-exact, get_slot-byte, get_slot-out}
use artmap.Tree.Leaves.{
  leaves, node_leaves, child_leaves, Every, Every-map, look, look-none, look-first, look-other,
}
use artmap.Tree.InOrder.{Under, Longer, child_leaves-Longer, looked, look-child_leaves}

other_key :
    (path p rest k : Key)
    → is_prefix_of p rest ≡ false
    → bytes_eq ((path ++ p) ++ k) (path ++ rest) ≡ false
other_key path p rest k out = elim (Bool-cases (bytes_eq ((path ++ p) ++ k) (path ++ rest))) [
  | inr other ↦ other
  | inl same ↦
      let e = bytes_eq_sound (p ++ k) rest (
        sym (bytes_eq-append path (p ++ k) rest)
        ∙ ap (λ t. bytes_eq t (path ++ rest)) (sym (append_assoc path p k))
        ∙ same) in
      absurd (false≢true (sym out ∙ ap (is_prefix_of p) (sym e) ∙ is_prefix_of-append p k))
]

longer_key : (path : Key) (c : ℕ) (rest : Key) → bytes_eq (path ++ c ∷ rest) path ≡ false
unfolding bytes_eq
longer_key path c rest =
    ap (bytes_eq (path ++ c ∷ rest)) (sym (append-nil path)) ∙ bytes_eq-append path (c ∷ rest) []

shorter_key : (path : Key) (c : ℕ) (rest : Key) → bytes_eq path (path ++ c ∷ rest) ≡ false
unfolding bytes_eq
shorter_key path c rest =
    ap (λ k. bytes_eq k (path ++ c ∷ rest)) (sym (append-nil path))
    ∙ bytes_eq-append path [] (c ∷ rest)

pub key_at :
    (key path p : Key) (depth : ℕ) {after : Key}
    → Stands key path depth
    → is_prefix_of p (drop depth key) ≡ true
    → drop (length p) (drop depth key) ≡ after
    → key ≡ (path ++ p) ++ after
key_at key path p depth {after} st ip e =
    st.joined
    ∙ ap (λ t. path ++ t) (is_prefix_of_sound p (drop depth key) ip ∙ ap (λ t. p ++ t) e)
    ∙ sym (append_assoc path p after)

module _ {ℓ} {V : Type ℓ} where
  pub node_leaves-Under :
      (path : Key) (n : Node V) → WfNode path n → Every (Under (path ++ prefix n)) (node_leaves n)
  node_leaves-Under path (node ty p none cs) w =
      Every-map (Longer (path ++ p)) (Under (path ++ p)) (child_leaves cs) (λ l g. (g.0 ∷ g.1, g.2))
        (child_leaves-Longer (path ++ p) cs w.5)
  node_leaves-Under path (node ty p (some l) cs) w = (
    ([], w.2 ∙ sym (append-nil (path ++ p))),
    Every-map (Longer (path ++ p)) (Under (path ++ p)) (child_leaves cs) (λ l g. (g.0 ∷ g.1, g.2))
        (child_leaves-Longer (path ++ p) cs w.5),
  )

  conclude-look : (key : Key) (l : Leaf V) → conclude key l ≡ look key (l ∷ [])
  unfolding conclude look
  conclude-look key l = refl

  look-out :
      (key path p : Key) (depth : ℕ) (ls : List (Leaf V))
      → Stands key path depth
      → is_prefix_of p (drop depth key) ≡ false
      → Every (Under (path ++ p)) ls
      → look key ls ≡ none
  look-out key path p depth ls st out u = look-none key ls (
      Every-map (Under (path ++ p)) (λ l. bytes_eq l.key key ≡ false) ls
        (λ l g.
          ap (λ k. bytes_eq k key) g.1
          ∙ ap (bytes_eq ((path ++ p) ++ g.0)) st.joined
          ∙ other_key path p (drop depth key) g.0 out)
        u)

  look-end :
      (key path : Key) (n : Node V)
      → WfNode path n
      → key ≡ path ++ prefix n
      → look key (node_leaves n) ≡ exact_leaf n
  look-end key path (node ty p none cs) w k = look-none key (child_leaves cs) (
      Every-map (Longer (path ++ p)) (λ l. bytes_eq l.key key ≡ false) (child_leaves cs)
        (λ l g.
          ap (λ j. bytes_eq j key) g.2
          ∙ ap (bytes_eq ((path ++ p) ++ g.0 ∷ g.1)) k
          ∙ longer_key (path ++ p) g.0 g.1)
        (child_leaves-Longer (path ++ p) cs w.5))
  look-end key path (node ty p (some l) cs) w k =
      look-first key l (child_leaves cs) (ap (bytes_eq l.key) (k ∙ sym w.2) ∙ bytes_eq_refl l.key)

  look-byte :
      (key path : Key) (byte : ℕ) (below : Key) (n : Node V)
      → WfNode path n
      → key ≡ (path ++ prefix n) ++ byte ∷ below
      → look key (node_leaves n) ≡ looked key (find_child byte n)
  unfolding find_child
  look-byte key path byte below (node ty p none cs) w k =
      look-child_leaves key (path ++ p) byte below cs k w.5 w.3
  look-byte key path byte below (node ty p (some l) cs) w k =
      look-other key l (child_leaves cs) (
        ap (λ j. bytes_eq j key) w.2
        ∙ ap (bytes_eq (path ++ p)) k
        ∙ shorter_key (path ++ p) byte below)
      ∙ look-child_leaves key (path ++ p) byte below cs k w.5 w.3

  module _ (f : ℕ) (key path : Key) (depth : ℕ) (n : Node V) (w : WfNode path n)
      (st : Stands key path depth) (ip : is_prefix_of (prefix n) (drop depth key) ≡ true) where
    ends : (q : Key) (m : Node V) → WfNode q m → EndsAt (q ++ prefix m) (exact_leaf m)
    ends q (node ty p ex cs) g = g.2

    at_end :
        drop (length (prefix n)) (drop depth key) ≡ []
        → get_slot (suc f) key depth (inner n) ≡ look key (node_leaves n)
    at_end e =
        get_slot-exact f key path depth n (ends path n w) st ip e
        ∙ sym (look-end key path n w (Stands-end key path (prefix n) depth st ip e))

    through_byte :
        (byte : ℕ) (below : Key)
        → drop (length (prefix n)) (drop depth key) ≡ byte ∷ below
        → ((c : Slot V)
            → find_child byte n ≡ some c
            → get_slot f key (depth + length (prefix n) + 1) c ≡ look key (leaves c))
        → get_slot (suc f) key depth (inner n) ≡ look key (node_leaves n)
    through_byte byte below e ih =
        get_slot-byte f key depth n byte below ip e refl
        ∙ here (find_child byte n) refl
        ∙ sym (look-byte key path byte below n w (key_at key path (prefix n) depth st ip e))
      where
        here :
            (o : Option (Slot V))
            → find_child byte n ≡ o
            → step (get_slot f key) (depth + length (prefix n) + 1) o ≡ looked key o
        here none h = refl
        here (some c) h = ih c h

  -- A lookup with enough fuel finds what the leaves of the slot have.
  pub get_slot-leaves :
      (f : ℕ) (key : Key) (depth : ℕ) (path : Key) (s : Slot V)
      → Wf path s
      → Stands key path depth
      → length (drop depth key) < f
      → get_slot f key depth s ≡ look key (leaves s)
  get_slot-leaves zero key depth path s w st lt = absurd (omega arith)
  get_slot-leaves (suc f) key depth path null w st lt = absurd w
  get_slot-leaves (suc f) key depth path (leaf l) w st lt =
      get_slot-leaf (suc f) key depth l (omega arith) ∙ conclude-look key l
  get_slot-leaves (suc f) key depth path (inner n) w st lt =
      elim (Bool-cases (is_prefix_of (prefix n) (drop depth key))) [
        | inr out ↦
            get_slot-out (suc f) key depth n out
            ∙ sym (
                look-out key path (prefix n) depth (node_leaves n) st out
                  (node_leaves-Under path n w))
        | inl ip ↦ elim (List-cases (drop (length (prefix n)) (drop depth key))) [
          | inl e ↦ at_end f key path depth n w st ip e
          | inr (byte, below, e) ↦ through_byte f key path depth n w st ip byte below e (λ c h.
              get_slot-leaves f key (depth + length (prefix n) + 1)
                ((path ++ prefix n) ++ byte ∷ []) c (WfNode-find path byte c n w h).1
                (Stands-below key path (prefix n) depth st ip e)
                (let q = length_below (drop depth key) (length (prefix n)) e in
                  let r = ap length (drop_below key depth (length (prefix n)) e) in omega arith))
        ]
      ]

  get-empty : (key : Key) → get {V = V} key null ≡ look {V = V} key []
  unfolding get get_slot look
  get-empty key = refl

  -- A lookup in a well-formed tree finds the key among the leaves of the tree, and nothing else.
  pub get-leaves : (key : Key) (root : Slot V) → IsTree root → get key root ≡ look key (leaves root)
  unfolding get
  get-leaves key null w = get-empty key
  get-leaves key (leaf l) w =
      get_slot-leaves (suc (length key)) key 0 [] (leaf l) w (Stands-root key) (omega arith)
  get-leaves key (inner n) w =
      get_slot-leaves (suc (length key)) key 0 [] (inner n) w (Stands-root key) (omega arith)
