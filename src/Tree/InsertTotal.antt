-- ===== src/Tree/InsertTotal.antt =====
-- When the insert returns: the fuel of the descent, and the growth of full nodes.
use artmap.Prelude.{
  ℕ, zero, suc, ◌+◌, ◌≤◌, ◌<◌, ◌≡◌, refl, ap, ◌∙◌, true, inl, inr, Option, none, some, [], ◌∷◌,
  ◌++◌, length, drop, Bool-cases, Option-cases, arith,
}
use mathlib.Core.Path.{subst}
use artmap.Prelude.Bytes.{Key, is_prefix_of}
use artmap.Prelude.Entries.{Entries, Above, IsSorted, find, insert, insert-IsSorted, length-insert}
use artmap.Tree.{
  NodeType, capacity, grown, Leaf, Slot, null, leaf, inner, Node, node, prefix, node_type, entries,
  to_entries, is_full, find_child,
}
use artmap.Tree.Write.{
  Mode, Done, insert_node, insert_below, insert_slot, add_child, in_larger, publish,
}
use artmap.Tree.Wf.{IsBytes, Wf, WfNode, WfEntries, WfAll-entries, WfNode-find, IsBytes-drop}
use artmap.Tree.InsertAdd.{add_child_full, add_child_room}
use artmap.Tree.Look.{drop_below, length_below}
use artmap.Tree.Stands.{Stands, Stands-below}
use artmap.Tree.Inserts.{
  insert_node_split, insert_node_through, insert_below_end, insert_below_byte, at_byte_of,
}

module _ {ℓ} {A : Type ℓ} where
  abbrev ByteKeys : Entries A → Type 0
  ByteKeys [] = Unit
  ByteKeys ((b, c) ∷ es) = (b < 256) × ByteKeys es

  ByteKeys-insert :
      (b : ℕ) (a : A) (es : Entries A) → b < 256 → ByteKeys es → ByteKeys (insert b a es)
  unfolding insert
  ByteKeys-insert b a [] lt h = (lt, tt)
  ByteKeys-insert b a ((k, c) ∷ es) lt h = ground (arith, ByteKeys-insert b a es)

  Above-room :
      (k : ℕ) (es : Entries A)
      → k < 256
      → Above k es
      → IsSorted es
      → ByteKeys es
      → suc k + length es ≤ 256
  Above-room k [] lt a s b = omega arith
  Above-room k ((j, c) ∷ es) lt a s b = omega (arith, Above-room j es b.0 s.0 s.1 b.1)

  -- Distinct bytes are at most 256.
  length-le_256 : (es : Entries A) → IsSorted es → ByteKeys es → length es ≤ 256
  length-le_256 [] s b = omega arith
  length-le_256 ((j, c) ∷ es) s b = omega (arith, Above-room j es b.0 s.0 s.1 b.1)

  length-lt_256 :
      (b : ℕ) (a : A) (es : Entries A)
      → b < 256
      → find b es ≡ none
      → IsSorted es
      → ByteKeys es
      → length es < 256
  length-lt_256 b a es lt n s bs = omega (
    arith,
    length-le_256 (insert b a es) (insert-IsSorted b a es n s) (ByteKeys-insert b a es lt bs),
    length-insert b a es,
  )

grown-none : (t : NodeType) → grown t ≡ none → capacity t ≡ 256
unfolding grown capacity
grown-none t h = ground arith

module _ {ℓ} {V : Type ℓ} where
  WfEntries-ByteKeys : (path : Key) (es : Entries (Slot V)) → WfEntries path es → ByteKeys es
  WfEntries-ByteKeys path [] h = tt
  WfEntries-ByteKeys path ((b, s) ∷ es) h = (h.0, WfEntries-ByteKeys path es h.2)

  full_le : (n : Node V) → is_full n ≡ true → capacity (node_type n) ≤ length (entries n)
  unfolding is_full
  full_le n h = ground arith

  abbrev pub Returns : Option (Done V) → Type ℓ
  Returns o = (d : Done V) × (o ≡ some d)

  -- The `expect` of the grow path holds: a full node that lacks a byte is never a `Node256`.
  add_child-Returns :
      (new : Leaf V) (path : Key) (byte : ℕ) (n : Node V)
      → WfNode path n
      → find_child byte n ≡ none
      → byte < 256
      → Returns (add_child new byte n)
  unfolding find_child in_larger
  add_child-Returns new path byte (node ty p ex cs) w h lt =
      elim (Bool-cases (is_full (node ty p ex cs))) [
        | inr room ↦ (_, add_child_room new byte (node ty p ex cs) room)
        | inl full ↦ elim (Option-cases (grown ty)) [
          | inl last ↦
              let z = length-lt_256 byte (leaf new) (to_entries cs) lt h w.3 (
                WfEntries-ByteKeys (path ++ p) (to_entries cs)
                  (WfAll-entries (path ++ p) cs w.5)) in
              absurd (omega (arith, grown-none ty last, full_le (node ty p ex cs) full))
          | inr (ty', more) ↦ (
            _,
            add_child_full new byte (node ty p ex cs) full
                ∙ ap (in_larger new byte (node ty p ex cs)) more,
          )
        ]
      ]

  module _ (mode : Mode) (new : Leaf V) where
    byte-Returns :
        (next : ℕ → Slot V → Option (Done V)) (d byte : ℕ) (path : Key) (n : Node V)
        (o : Option (Slot V))
        → WfNode path n
        → byte < 256
        → find_child byte n ≡ o
        → ((c : Slot V) → find_child byte n ≡ some c → Returns (next d c))
        → Returns (at_byte_of mode new next d byte n o)
    unfolding publish
    byte-Returns next d byte path n none w lt h ih = add_child-Returns new path byte n w h lt
    byte-Returns next d byte path n (some c) w lt h ih =
        let (r, e) = ih c h in (_, ap (publish byte n) e)

    node-Returns :
        (next : ℕ → Slot V → Option (Done V)) (depth : ℕ) (path : Key) (n : Node V)
        → WfNode path n
        → IsBytes new.key
        → ((byte : ℕ) (below : Key) (c : Slot V)
            → is_prefix_of (prefix n) (drop depth new.key) ≡ true
            → drop (length (prefix n)) (drop depth new.key) ≡ byte ∷ below
            → find_child byte n ≡ some c
            → Returns (next (depth + length (prefix n) + 1) c))
        → Returns (insert_node mode new next depth n)
    node-Returns next depth path n w bn ih =
        elim (Bool-cases (is_prefix_of (prefix n) (drop depth new.key))) [
          | inr out ↦ (_, insert_node_split mode new next depth n out)
          | inl ip ↦
              through ip (drop (length (prefix n)) (drop depth new.key)) refl
                (insert_node_through mode new next depth n ip)
        ]
      where
        nd : ℕ
        nd = depth + length (prefix n)

        through :
            is_prefix_of (prefix n) (drop depth new.key) ≡ true
            → (after : Key) → drop (length (prefix n)) (drop depth new.key) ≡ after
            → insert_node mode new next depth n ≡ insert_below mode new next nd n after
            → Returns (insert_node mode new next depth n)
        through ip [] e h = (_, h ∙ insert_below_end mode new next nd n)
        through ip (byte ∷ below) e h =
            let bytes = subst IsBytes e (
              IsBytes-drop (length (prefix n)) (drop depth new.key)
                (IsBytes-drop depth new.key bn)) in
            let (r, q) =
              byte-Returns next (nd + 1) byte path n (find_child byte n) w bytes.0 refl
                (λ c f. ih byte below c ip e f) in
            (r, h ∙ insert_below_byte mode new next nd n byte below ∙ q)

    pub insert_slot-Returns :
        (fuel depth : ℕ) (path : Key) (s : Slot V)
        → Wf path s
        → Stands new.key path depth
        → IsBytes new.key
        → length (drop depth new.key) < fuel
        → Returns (insert_slot fuel mode new depth s)
    unfolding insert_slot
    insert_slot-Returns zero depth path s w st bn lt = absurd (omega arith)
    insert_slot-Returns (suc fuel) depth path null w st bn lt = absurd w
    insert_slot-Returns (suc fuel) depth path (leaf e) w st bn lt = (_, refl)
    insert_slot-Returns (suc fuel) depth path (inner n) w st bn lt =
        node-Returns (insert_slot fuel mode new) depth path n w bn (λ byte below c ip e h.
          insert_slot-Returns fuel (depth + length (prefix n) + 1) ((path ++ prefix n) ++ byte ∷ [])
            c (WfNode-find path byte c n w h).1 (Stands-below new.key path (prefix n) depth st ip e)
            bn
            (let q = length_below (drop depth new.key) (length (prefix n)) e in
              let r = ap length (drop_below new.key depth (length (prefix n)) e) in omega arith))
