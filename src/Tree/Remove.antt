-- ===== src/Tree/Remove.antt =====
-- src/raw/remove.rs and src/raw/node.rs: the remove, as it runs when every validation, upgrade and
-- pointer re-check succeeds, and the follow-up that unlinks the nodes it empties.
use artmap.Prelude.{
  ℕ, zero, suc, ◌+◌, ◌-◌, Bool, true, false, ◌&&◌, not, Option, none, some, [], ◌∷◌, length, drop,
  if◌then◌else◌, ◌==◌,
}
use artmap.Prelude.Bytes.{Key, bytes_eq, is_prefix_of}
use artmap.Tree.{
  Leaf, Slot, null, leaf, inner, Node, prefix, exact_leaf, num_children, find_child, replace_child,
  remove_child, set_exact_leaf,
}

-- What a remove takes out of a node.
pub data Taken : Type 0 where
  exact : Taken
  child : ℕ → Taken
  nothing : Taken

abbrev pub is_exact : Taken → Bool
is_exact exact = true
is_exact _ = false

abbrev pub taken_child : Taken → ℕ
taken_child (child byte) = 1
taken_child _ = 0

abbrev pub to_nat : Bool → ℕ
to_nat true = 1
to_nat false = 0

pub record Removed {ℓ} (V : Type ℓ) : Type ℓ where
  pub slot : Slot V
  pub taken_leaf : Leaf V
  pub count : ℕ
  pub follow_up : Bool

module _ {ℓ} {V : Type ℓ} where
  abbrev pub has_exact : Option (Leaf V) → Bool
  has_exact none = false
  has_exact (some l) = true

  -- `saturating_sub` is the subtraction of ℕ.
  unfoldable pub emptied_by : Taken → Node V → Bool
  emptied_by taken n =
      num_children n + to_nat (has_exact (exact_leaf n) && not (is_exact taken)) - taken_child taken
      == 0

  unfoldable pub take_out : Taken → Node V → Node V
  take_out exact n = set_exact_leaf none n
  take_out (child byte) n = remove_child byte n
  take_out nothing n = n

  -- The leaf found in a node: the node goes with it, or keeps an entry and stays.
  unfoldable pub take_leaf :
      (Leaf V → Bool) → (Leaf V → Option ℕ) → Taken → Leaf V → Node V → Option (Removed V)
  unfolding emptied_by take_out
  take_leaf matches confirm taken l n =
      if matches l
      then elim (confirm l) [
        | none ↦ none
        | some count ↦ some (record {
          slot = if emptied_by taken n then null else inner (take_out taken n);
          taken_leaf = l;
          count = count;
          follow_up = false;
        })
      ]
      else none

  -- The parent of the node that was written: a null slot is a node that was unlinked.
  unfoldable pub relink : ℕ → Node V → Removed V → Slot V → Removed V
  unfolding emptied_by
  relink byte n d null =
      let p = remove_child byte n in record d { slot = inner p; follow_up = emptied_by nothing p }
  relink byte n d s = record d { slot = inner (replace_child byte s n) }

  unfoldable pub relink_all : ℕ → Node V → Option (Removed V) → Option (Removed V)
  unfolding relink
  relink_all byte n none = none
  relink_all byte n (some d) = some (relink byte n d d.slot)

  unfoldable pub remove_exact :
      (Leaf V → Bool) → (Leaf V → Option ℕ) → Node V → Option (Leaf V) → Option (Removed V)
  unfolding take_leaf
  remove_exact matches confirm n none = none
  remove_exact matches confirm n (some l) = take_leaf matches confirm exact l n

  unfoldable pub remove_at :
      (Leaf V → Bool)
      → (Leaf V → Option ℕ)
      → (Slot V → Option (Removed V))
      → ℕ
      → Node V
      → Option (Slot V)
      → Option (Removed V)
  unfolding take_leaf relink_all
  remove_at matches confirm next byte n none = none
  remove_at matches confirm next byte n (some null) = none
  remove_at matches confirm next byte n (some (leaf l)) = take_leaf matches confirm (child byte) l n
  remove_at matches confirm next byte n (some (inner c)) = relink_all byte n (next (inner c))

  unfoldable pub remove_below :
      (Leaf V → Bool)
      → (Leaf V → Option ℕ)
      → (ℕ → Slot V → Option (Removed V))
      → ℕ
      → Node V
      → Key
      → Option (Removed V)
  unfolding remove_exact remove_at
  remove_below matches confirm next node_depth n [] = remove_exact matches confirm n (exact_leaf n)
  remove_below matches confirm next node_depth n (byte ∷ below) =
      remove_at matches confirm (next (node_depth + 1)) byte n (find_child byte n)

  unfoldable pub remove_root_leaf :
      (Leaf V → Bool) → (Leaf V → Option ℕ) → Leaf V → Option (Removed V)
  remove_root_leaf matches confirm l =
      if matches l
      then elim (confirm l) [
        | none ↦ none
        | some count ↦
            some (record { slot = null; taken_leaf = l; count = count; follow_up = false })
      ]
      else none

  unfoldable pub remove_slot :
      ℕ → Key → (Leaf V → Bool) → (Leaf V → Option ℕ) → ℕ → Slot V → Option (Removed V)
  unfolding remove_below remove_root_leaf
  remove_slot zero key matches confirm depth s = none
  remove_slot (suc fuel) key matches confirm depth null = none
  remove_slot (suc fuel) key matches confirm depth (leaf l) = remove_root_leaf matches confirm l
  remove_slot (suc fuel) key matches confirm depth (inner n) =
      if is_prefix_of (prefix n) (drop depth key)
      then remove_below matches confirm (remove_slot fuel key matches confirm)
          (depth + length (prefix n)) n (drop (length (prefix n)) (drop depth key))
      else none

  -- The node at hand, once nothing below it on the key's path is an inner node.
  unfoldable pub unlink_if_empty : Node V → Slot V
  unfolding emptied_by
  unlink_if_empty n = if emptied_by nothing n then null else inner n

  unfoldable pub unlink_child : ℕ → Node V → Slot V → Slot V
  unfolding unlink_if_empty
  unlink_child byte n null = unlink_if_empty (remove_child byte n)
  unlink_child byte n s = inner (replace_child byte s n)

  unfoldable pub unlink_at : (Slot V → Slot V) → ℕ → Node V → Option (Slot V) → Slot V
  unfolding unlink_child
  unlink_at next byte n (some (inner c)) = unlink_child byte n (next (inner c))
  unlink_at next byte n _ = unlink_if_empty n

  unfoldable pub unlink_below : (ℕ → Slot V → Slot V) → ℕ → Node V → Key → Slot V
  unfolding unlink_at
  unlink_below next node_depth n [] = unlink_if_empty n
  unlink_below next node_depth n (byte ∷ below) =
      unlink_at (next (node_depth + 1)) byte n (find_child byte n)

  -- The follow-up: the last inner node on the key's path, and upwards while the node is empty.
  unfoldable pub unlink_emptied : ℕ → Key → ℕ → Slot V → Slot V
  unfolding unlink_below
  unlink_emptied zero key depth s = s
  unlink_emptied (suc fuel) key depth null = null
  unlink_emptied (suc fuel) key depth (leaf l) = leaf l
  unlink_emptied (suc fuel) key depth (inner n) =
      if is_prefix_of (prefix n) (drop depth key)
      then unlink_below (unlink_emptied fuel key) (depth + length (prefix n)) n
          (drop (length (prefix n)) (drop depth key))
      else unlink_if_empty n

  unfoldable pub finish : Key → Removed V → Removed V
  unfolding unlink_emptied
  finish key d =
      if d.follow_up then record d { slot = unlink_emptied (suc (length key)) key 0 d.slot } else d

  unfoldable pub finished : Key → Option (Removed V) → Option (Removed V)
  unfolding finish
  finished key none = none
  finished key (some d) = some (finish key d)

  unfoldable pub remove_confirmed :
      Key → (Leaf V → Bool) → (Leaf V → Option ℕ) → Slot V → Option (Removed V)
  unfolding remove_slot finished
  remove_confirmed key matches confirm root =
      finished key (remove_slot (suc (length key)) key matches confirm 0 root)

  -- `ArtMap::remove`: the leaf whose key is `key`.
  unfoldable pub remove : Key → Slot V → Option (Removed V)
  unfolding remove_confirmed
  remove key root = remove_confirmed key (λ l. bytes_eq l.key key) (λ l. some 1) root
