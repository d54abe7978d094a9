-- ===== src/Tree/Inserts.antt =====
-- The insert as a relation: which of its branches turned a slot into its result.
use artmap.Prelude.{
  ℕ, zero, suc, ◌+◌, ◌≡◌, refl, sym, ◌∙◌, true, false, inl, inr, Option, none, some, [], ◌∷◌,
  length, drop, ltb, lt→ltb, Bool-cases, some_inj, none≢some, arith,
}
use mathlib.Core.Path.{subst}
use artmap.Prelude.Bytes.{Key, is_prefix_of, common_prefix, common_prefix-lt_length}
use artmap.Tree.{
  node4, Leaf, Slot, null, leaf, inner, Node, prefix, exact_leaf, find_child, replace_child,
}
use artmap.Tree.Write.{
  Mode, inserted, Done, insert_at_leaf, insert_exact, split_node, add_child, publish, insert_below,
  insert_node, insert_slot,
}

module _ {ℓ} {V : Type ℓ} (mode : Mode) (new : Leaf V) where
  -- the key, from the node on
  abbrev pub rest_of : ℕ → Key
  rest_of depth = drop depth new.key

  abbrev pub after_of : ℕ → Node V → Key
  after_of depth n = drop (length (prefix n)) (rest_of depth)

  abbrev pub split_done : ℕ → Node V → Done V
  split_done depth n =
      let m = common_prefix (prefix n) (rest_of depth) in
      record {
        slot = inner (split_node new (drop m (rest_of depth)) m n);
        outcome = inserted;
        allocs = node4 ∷ [];
      }

  pub data Inserts : ℕ → Slot V → Done V → Type ℓ where
    at_null :
        (depth : ℕ)
        → Inserts depth null (record { slot = leaf new; outcome = inserted; allocs = [] })
    at_leaf : (depth : ℕ) (e : Leaf V) → Inserts depth (leaf e) (insert_at_leaf mode new depth e)
    at_split :
        (depth : ℕ) (n : Node V)
        → is_prefix_of (prefix n) (rest_of depth) ≡ false
        → Inserts depth (inner n) (split_done depth n)
    at_exact :
        (depth : ℕ) (n : Node V)
        → is_prefix_of (prefix n) (rest_of depth) ≡ true
        → after_of depth n ≡ []
        → Inserts depth (inner n) (insert_exact mode new n (exact_leaf n))
    at_new :
        (depth : ℕ) (n : Node V) (byte : ℕ) (below : Key) {d : Done V}
        → is_prefix_of (prefix n) (rest_of depth) ≡ true
        → after_of depth n ≡ byte ∷ below
        → find_child byte n ≡ none
        → add_child new byte n ≡ some d
        → Inserts depth (inner n) d
    at_child :
        (depth : ℕ) (n : Node V) (byte : ℕ) (below : Key) (c : Slot V) {d : Done V}
        → is_prefix_of (prefix n) (rest_of depth) ≡ true
        → after_of depth n ≡ byte ∷ below
        → find_child byte n ≡ some c
        → Inserts (depth + length (prefix n) + 1) c d
        → Inserts depth (inner n) (record d { slot = inner (replace_child byte d.slot n) })

  abbrev pub Next : Type ℓ
  Next = ℕ → Slot V → Option (Done V)

  pub insert_node_split :
      (next : Next) (depth : ℕ) (n : Node V)
      → is_prefix_of (prefix n) (rest_of depth) ≡ false
      → insert_node mode new next depth n ≡ some (split_done depth n)
  unfolding insert_node
  insert_node_split next depth n h = rw (
    h,
    lt→ltb (common_prefix (prefix n) (rest_of depth)) (length (prefix n))
        (common_prefix-lt_length (prefix n) (rest_of depth) h),
  )

  ltb_irrefl : (a : ℕ) → ltb a a ≡ false
  ltb_irrefl a = ground arith

  pub insert_node_through :
      (next : Next) (depth : ℕ) (n : Node V)
      → is_prefix_of (prefix n) (rest_of depth) ≡ true
      → insert_node mode new next depth n
        ≡ insert_below mode new next (depth + length (prefix n)) n (after_of depth n)
  unfolding insert_node
  insert_node_through next depth n h = rw (h, ltb_irrefl (length (prefix n)))

  pub insert_below_end :
      (next : Next) (nd : ℕ) (n : Node V)
      → insert_below mode new next nd n [] ≡ some (insert_exact mode new n (exact_leaf n))
  unfolding insert_below
  insert_below_end next nd n = refl

  -- what stands at the byte decides
  abbrev pub at_byte_of : Next → ℕ → ℕ → Node V → Option (Slot V) → Option (Done V)
  at_byte_of next d byte n none = add_child new byte n
  at_byte_of next d byte n (some c) = publish byte n (next d c)

  pub insert_below_byte :
      (next : Next) (nd : ℕ) (n : Node V) (byte : ℕ) (below : Key)
      → insert_below mode new next nd n (byte ∷ below)
        ≡ at_byte_of next (nd + 1) byte n (find_child byte n)
  unfolding insert_below
  insert_below_byte next nd n byte below = ground arith

  publish-some :
      (byte : ℕ) (n : Node V) {d : Done V} (o : Option (Done V))
      → publish byte n o ≡ some d
      → (d' : Done V) × (o ≡ some d')
        × (record d' { slot = inner (replace_child byte d'.slot n) } ≡ d)
  unfolding publish
  publish-some byte n none h = absurd (none≢some h)
  publish-some byte n (some d') h = (d', refl, some_inj h)

  module _ (next : Next) (depth : ℕ) (n : Node V)
      (ih : (d : ℕ) (c : Slot V) (r : Done V) → next d c ≡ some r → Inserts d c r) where
    Inserts-byte :
        (byte : ℕ) (below : Key) (o : Option (Slot V)) {d : Done V}
        → is_prefix_of (prefix n) (rest_of depth) ≡ true
        → after_of depth n ≡ byte ∷ below
        → find_child byte n ≡ o
        → at_byte_of next (depth + length (prefix n) + 1) byte n o ≡ some d
        → Inserts depth (inner n) d
    Inserts-byte byte below none ip e h r = at_new depth n byte below ip e h r
    Inserts-byte byte below (some c) ip e h r =
        let (d', came, is) = publish-some byte n (next (depth + length (prefix n) + 1) c) r in
        subst (Inserts depth (inner n)) is
          (at_child depth n byte below c ip e h (ih (depth + length (prefix n) + 1) c d' came))

    Inserts-through :
        (after : Key) {d : Done V}
        → is_prefix_of (prefix n) (rest_of depth) ≡ true
        → after_of depth n ≡ after
        → insert_below mode new next (depth + length (prefix n)) n after ≡ some d
        → Inserts depth (inner n) d
    Inserts-through [] ip e r =
        subst (Inserts depth (inner n))
          (some_inj (sym (insert_below_end next (depth + length (prefix n)) n) ∙ r))
          (at_exact depth n ip e)
    Inserts-through (byte ∷ below) ip e r =
        Inserts-byte byte below (find_child byte n) ip e refl
          (sym (insert_below_byte next (depth + length (prefix n)) n byte below) ∙ r)

    Inserts-inner :
        {d : Done V} → insert_node mode new next depth n ≡ some d → Inserts depth (inner n) d
    Inserts-inner h = elim (Bool-cases (is_prefix_of (prefix n) (rest_of depth))) [
      | inr out ↦
          subst (Inserts depth (inner n)) (some_inj (sym (insert_node_split next depth n out) ∙ h))
            (at_split depth n out)
      | inl ip ↦
          Inserts-through (after_of depth n) ip refl (sym (insert_node_through next depth n ip) ∙ h)
    ]

  -- Every result of `insert_slot` came about by one of the branches.
  pub insert_slot-Inserts :
      (fuel depth : ℕ) (s : Slot V) (d : Done V)
      → insert_slot fuel mode new depth s ≡ some d
      → Inserts depth s d
  unfolding insert_slot
  insert_slot-Inserts zero depth s d h = absurd (none≢some h)
  insert_slot-Inserts (suc fuel) depth null d h =
      subst (Inserts depth null) (some_inj h) (at_null depth)
  insert_slot-Inserts (suc fuel) depth (leaf e) d h =
      subst (Inserts depth (leaf e)) (some_inj h) (at_leaf depth e)
  insert_slot-Inserts (suc fuel) depth (inner n) d h =
      Inserts-inner (insert_slot fuel mode new) depth n
        (λ d' c r q. insert_slot-Inserts fuel d' c r q) h
