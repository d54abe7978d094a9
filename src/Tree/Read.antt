-- ===== src/Tree/Read.antt =====
-- src/raw/read.rs: the point lookup, as it runs when no latch changes under it.
--
-- `depth` counts the bytes of the key that the path has consumed; `drop depth key` is the source's
-- `key.get(depth..)`. The loop takes fuel: each inner node that is left costs one byte of the key.
use artmap.Prelude.{ℕ, zero, suc, ◌+◌, Option, none, some, [], ◌∷◌, length, drop, if◌then◌else◌}
use artmap.Prelude.Bytes.{Key, bytes_eq, is_prefix_of}
use artmap.Tree.{Leaf, Slot, null, leaf, inner, Node, prefix, exact_leaf, find_child}

module _ {ℓ} {V : Type ℓ} where
  -- A leaf is the answer only if its whole key is the key that is looked up.
  unfoldable pub conclude : Key → Leaf V → Option (Leaf V)
  conclude key l = if bytes_eq l.key key then some l else none

  unfoldable pub conclude_exact : Key → Option (Leaf V) → Option (Leaf V)
  conclude_exact key none = none
  conclude_exact key (some l) = conclude key l

  -- Behind the prefix of a node: its exact leaf, or the child at the next byte.
  unfoldable pub follow : Key → (ℕ → Slot V → Option (Leaf V)) → ℕ → Node V → Key → Option (Leaf V)
  unfolding conclude_exact
  follow key next node_depth n [] = conclude_exact key (exact_leaf n)
  follow key next node_depth n (byte ∷ below) = elim (find_child byte n) [
    | none ↦ none
    | some c ↦ next (node_depth + 1) c
  ]

  unfoldable pub enter : Key → (ℕ → Slot V → Option (Leaf V)) → ℕ → Node V → Option (Leaf V)
  unfolding follow
  enter key next depth n =
      if is_prefix_of (prefix n) (drop depth key)
      then follow key next (depth + length (prefix n)) n (drop (length (prefix n)) (drop depth key))
      else none

  unfoldable pub get_slot : ℕ → Key → ℕ → Slot V → Option (Leaf V)
  unfolding enter conclude
  get_slot zero key depth s = none
  get_slot (suc fuel) key depth null = none
  get_slot (suc fuel) key depth (leaf l) = conclude key l
  get_slot (suc fuel) key depth (inner n) = enter key (get_slot fuel key) depth n

  unfoldable pub get : Key → Slot V → Option (Leaf V)
  unfolding get_slot
  get key root = get_slot (suc (length key)) key 0 root
