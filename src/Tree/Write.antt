-- ===== src/Tree/Write.antt =====
-- src/raw/write.rs: the insert, as it runs when every validation, upgrade and pointer re-check
-- succeeds: one pass from the root, with no retry.
--
-- A step rebuilds the slot that it writes; what the source stores into the parent is the result
-- of the step below it. `allocs` lists the nodes that the prepare phase takes from its pool. No
-- result stands for a loop that has run out of fuel and for the `expect` on a full `Node256`.
use artmap.Prelude.{
  ℕ, zero, suc, ◌+◌, Option, none, some, List, [], ◌∷◌, length, take, drop, get_or, ltb,
  if◌then◌else◌,
}
use artmap.Prelude.Bytes.{Key, bytes_eq, is_prefix_of, common_prefix}
use artmap.Tree.{
  NodeType, node4, grown, max_prefix_len, Leaf, Slot, null, leaf, inner, Node, node_type, prefix,
  exact_leaf, is_full, find_child, insert_child, replace_child, set_exact_leaf, store_prefix, fresh,
  copy_into,
}

pub data Mode : Type 0 where
  replace insert_if_absent : Mode

pub data Outcome {ℓ} (V : Type ℓ) : Type ℓ where
  inserted : Outcome V
  replaced : Leaf V → Outcome V
  existing : Leaf V → Outcome V

pub record Done {ℓ} (V : Type ℓ) : Type ℓ where
  pub slot : Slot V
  pub outcome : Outcome V
  pub allocs : List NodeType

-- The nodes that `build_chain` takes from the pool, for a chain over these prefix bytes.
unfoldable pub chain_allocs : ℕ → Key → List NodeType
chain_allocs zero rest = node4 ∷ []
chain_allocs (suc fuel) rest =
    let above = node4 ∷ chain_allocs fuel (drop (suc max_prefix_len) rest) in
    if ltb max_prefix_len (length rest) then above else node4 ∷ []

module _ {ℓ} {V : Type ℓ} where
  -- One of the two leaves of the bottom node, by what follows the common prefix.
  unfoldable pub hang : Key → Leaf V → Node V → Node V
  hang [] l n = set_exact_leaf (some l) n
  hang (byte ∷ below) l n = insert_child byte (leaf l) n

  unfoldable pub bottom : Key → Leaf V → Key → Leaf V → Key → Node V
  unfolding hang
  bottom ea a eb b pre = hang eb b (hang ea a (store_prefix pre (fresh node4)))

  -- Segments of 16 prefix bytes and a branch byte, above the bottom node.
  unfoldable pub chain : ℕ → (Key → Node V) → Key → Slot V
  chain zero bot rest = inner (bot rest)
  chain (suc fuel) bot rest =
      let segment = inner (
        insert_child (get_or rest max_prefix_len 0)
          (chain fuel bot (drop (suc max_prefix_len) rest))
          (store_prefix (take max_prefix_len rest) (fresh node4))) in
      if ltb max_prefix_len (length rest) then segment else inner (bot rest)

  -- Two leaves whose keys part behind `common` bytes of their suffixes.
  unfoldable pub build_chain : Key → Leaf V → Key → Leaf V → ℕ → Slot V
  unfolding chain bottom
  build_chain es e ns new common =
      chain common (bottom (drop common es) e (drop common ns) new) (take common ns)

  -- The leaf found has the key already.
  unfoldable pub same_key : Mode → Leaf V → Leaf V → Done V
  same_key insert_if_absent new e = record { slot = leaf e; outcome = existing e; allocs = [] }
  same_key replace new e = record { slot = leaf new; outcome = replaced e; allocs = [] }

  -- The slot holds a leaf: the same key, or a chain for both.
  unfoldable pub insert_at_leaf : Mode → Leaf V → ℕ → Leaf V → Done V
  unfolding build_chain chain_allocs same_key
  insert_at_leaf mode new depth e =
      let es = drop depth e.key in
      let ns = drop depth new.key in
      let common = common_prefix es ns in
      if bytes_eq e.key new.key then same_key mode new e else record {
        slot = build_chain es e ns new common;
        outcome = inserted;
        allocs = chain_allocs common (take common ns);
      }

  -- The key ends in this node.
  unfoldable pub insert_exact : Mode → Leaf V → Node V → Option (Leaf V) → Done V
  insert_exact mode new n none = record {
    slot = inner (set_exact_leaf (some new) n);
    outcome = inserted;
    allocs = [];
  }
  insert_exact insert_if_absent new n (some old) = record {
    slot = inner n;
    outcome = existing old;
    allocs = [];
  }
  insert_exact replace new n (some old) = record {
    slot = inner (set_exact_leaf (some new) n);
    outcome = replaced old;
    allocs = [];
  }

  -- The prefix of the node parts from the key behind `matched` bytes; `after` is the key from there.
  unfoldable pub split_node : Leaf V → Key → ℕ → Node V → Node V
  unfolding hang
  split_node new after matched n = hang after new (
      insert_child (get_or (prefix n) matched 0)
        (inner (store_prefix (drop (suc matched) (prefix n)) n))
        (store_prefix (take matched (prefix n)) (fresh node4)))

  -- A copy into the next larger type, which a `Node256` does not have.
  unfoldable pub in_larger : Leaf V → ℕ → Node V → Option NodeType → Option (Done V)
  in_larger new byte n none = none
  in_larger new byte n (some ty) = some (record {
    slot = inner (insert_child byte (leaf new) (copy_into n (fresh ty)));
    outcome = inserted;
    allocs = ty ∷ [];
  })

  -- No child at the byte: room in the node, or a larger copy.
  unfoldable pub add_child : Leaf V → ℕ → Node V → Option (Done V)
  unfolding grown is_full in_larger
  add_child new byte n =
      if is_full n
      then in_larger new byte n (grown (node_type n))
      else some (record {
        slot = inner (insert_child byte (leaf new) n);
        outcome = inserted;
        allocs = [];
      })

  -- What the step below the byte returned, published in this node.
  unfoldable pub publish : ℕ → Node V → Option (Done V) → Option (Done V)
  publish byte n none = none
  publish byte n (some d) = some (record d { slot = inner (replace_child byte d.slot n) })

  -- Behind the prefix of the node.
  unfoldable pub insert_below :
      Mode → Leaf V → (ℕ → Slot V → Option (Done V)) → ℕ → Node V → Key → Option (Done V)
  unfolding insert_exact add_child publish
  insert_below mode new next node_depth n [] = some (insert_exact mode new n (exact_leaf n))
  insert_below mode new next node_depth n (byte ∷ below) = elim (find_child byte n) [
    | none ↦ add_child new byte n
    | some c ↦ publish byte n (next (node_depth + 1) c)
  ]

  unfoldable pub insert_node :
      Mode → Leaf V → (ℕ → Slot V → Option (Done V)) → ℕ → Node V → Option (Done V)
  unfolding insert_below split_node
  insert_node mode new next depth n =
      let rest = drop depth new.key in
      let matched =
        if is_prefix_of (prefix n) rest then length (prefix n) else common_prefix (prefix n) rest in
      if ltb matched (length (prefix n))
      then some (record {
        slot = inner (split_node new (drop matched rest) matched n);
        outcome = inserted;
        allocs = node4 ∷ [];
      })
      else insert_below mode new next (depth + length (prefix n)) n (drop (length (prefix n)) rest)

  unfoldable pub insert_slot : ℕ → Mode → Leaf V → ℕ → Slot V → Option (Done V)
  unfolding insert_node insert_at_leaf
  insert_slot zero mode new depth s = none
  insert_slot (suc fuel) mode new depth null =
      some (record { slot = leaf new; outcome = inserted; allocs = [] })
  insert_slot (suc fuel) mode new depth (leaf e) = some (insert_at_leaf mode new depth e)
  insert_slot (suc fuel) mode new depth (inner n) =
      insert_node mode new (insert_slot fuel mode new) depth n

  unfoldable pub insert_with : Mode → Leaf V → Slot V → Option (Done V)
  unfolding insert_slot
  insert_with mode new root = insert_slot (suc (length new.key)) mode new 0 root
