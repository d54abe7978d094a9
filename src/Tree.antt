-- ===== src/Tree.antt =====
-- The tree of src/raw: its slots, leaves and inner nodes, and the operations on one node.
--
-- A slot is a value, not an address: `null`, a leaf or an inner node. The children of a node are
-- its `Entries`, the abstract view of the four layouts.
pub mod Read
pub mod Write
pub mod Remove
pub mod Wf
pub mod Look
pub mod Chain
pub mod LeafSplit
pub mod Stands
pub mod InsertLeaf
pub mod Copy
pub mod NodeReads
pub mod Split
pub mod InsertNode
pub mod InsertAdd
pub mod Inserts
pub mod Insert
pub mod NodeWf
pub mod InsertWf
pub mod InsertKeeps
pub mod InsertTotal
pub mod InsertBefore
pub mod Rerouted
pub mod RemoveStep
pub mod RemoveParent
pub mod Removes
pub mod FollowUp
pub mod Filled
pub mod Unlinks
pub mod RemoveFills
pub mod InsertFills
pub mod Runs
pub mod RemoveLaws
pub mod Laws
pub mod Leaves
pub mod InOrder
pub mod Refines
pub mod Sorted
pub mod Contents
pub mod Shrink
pub mod Fitted
pub mod FitMerge
pub mod FitChildren
pub mod ShrinkLaws
mod Tests
use artmap.Prelude.{
  ℕ, zero, suc, ◌+◌, ◌-◌, ◌≡◌, refl, ap, Bool, true, false, ◌&&◌, ◌||◌, not, Option, none, some,
  List, [], ◌∷◌, length, leb, ltb, ◌==◌, if◌then◌else◌, min,
}
use artmap.Prelude.Bytes.{Key}
use artmap.Prelude.Entries.{Entries, find, insert, replace, remove}

pub data NodeType : Type 0 where
  node4 node16 node48 node256 : NodeType

abbrev pub max_prefix_len : ℕ
max_prefix_len = 16

unfoldable pub capacity : NodeType → ℕ
capacity node4 = 4
capacity node16 = 16
capacity node48 = 48
capacity node256 = 256

unfoldable pub fitting : ℕ → NodeType
fitting children =
    if leb children 4
    then node4
    else if leb children 16
    then node16
    else if leb children 48
    then node48
    else node256

unfoldable pub grown : NodeType → Option NodeType
grown node4 = some node16
grown node16 = some node48
grown node48 = some node256
grown node256 = none

-- A key and its value. The `removed` flag is the removal itself here: a leaf in the tree is live.
pub record Leaf {ℓ} (V : Type ℓ) : Type ℓ where
  pub key : Key
  pub value : V

mutual
  pub data Slot {ℓ} (V : Type ℓ) : Type ℓ where
    null : Slot V
    leaf : Leaf V → Slot V
    inner : Node V → Slot V

  -- type, prefix, exact leaf, children
  pub data Node {ℓ} (V : Type ℓ) : Type ℓ where
    node : NodeType → Key → Option (Leaf V) → Children V → Node V

  pub data Children {ℓ} (V : Type ℓ) : Type ℓ where
    nil : Children V
    cons : ℕ → Slot V → Children V → Children V

module _ {ℓ} {V : Type ℓ} where
  abbrev pub to_entries : Children V → Entries (Slot V)
  to_entries nil = []
  to_entries (cons b s cs) = (b, s) ∷ to_entries cs

  abbrev pub of_entries : Entries (Slot V) → Children V
  of_entries [] = nil
  of_entries ((b, s) ∷ es) = cons b s (of_entries es)

  pub to_entries-of_entries : (es : Entries (Slot V)) → to_entries (of_entries es) ≡ es
  to_entries-of_entries [] = refl
  to_entries-of_entries ((b, s) ∷ es) = ap (λ t. (b, s) ∷ t) (to_entries-of_entries es)

  abbrev pub is_null : Slot V → Bool
  is_null null = true
  is_null _ = false

  -- the fields of a node
  abbrev pub node_type : Node V → NodeType
  node_type (node ty p ex cs) = ty

  abbrev pub prefix : Node V → Key
  prefix (node ty p ex cs) = p

  abbrev pub exact_leaf : Node V → Option (Leaf V)
  exact_leaf (node ty p ex cs) = ex

  abbrev pub entries : Node V → Entries (Slot V)
  entries (node ty p ex cs) = to_entries cs

  abbrev pub num_children : Node V → ℕ
  num_children n = length (entries n)

  unfoldable pub is_full : Node V → Bool
  unfolding capacity
  is_full n = leb (capacity (node_type n)) (num_children n)

  unfoldable pub find_child : ℕ → Node V → Option (Slot V)
  find_child b n = find b (entries n)

  unfoldable pub insert_child : ℕ → Slot V → Node V → Node V
  insert_child b s (node ty p ex cs) = node ty p ex (of_entries (insert b s (to_entries cs)))

  unfoldable pub replace_child : ℕ → Slot V → Node V → Node V
  replace_child b s (node ty p ex cs) = node ty p ex (of_entries (replace b s (to_entries cs)))

  unfoldable pub remove_child : ℕ → Node V → Node V
  remove_child b (node ty p ex cs) = node ty p ex (of_entries (remove b (to_entries cs)))

  unfoldable pub set_exact_leaf : Option (Leaf V) → Node V → Node V
  set_exact_leaf ex' (node ty p ex cs) = node ty p ex' cs

  unfoldable pub store_prefix : Key → Node V → Node V
  store_prefix p' (node ty p ex cs) = node ty p' ex cs

  -- the same node in another layout
  abbrev pub retype : NodeType → Node V → Node V
  retype ty' (node ty p ex cs) = node ty' p ex cs

  -- A fresh node of a type: no prefix, no exact leaf and no children.
  unfoldable pub fresh : NodeType → Node V
  fresh ty = node ty [] none nil

  -- The entries of a node, pushed one by one into an unpublished one.
  unfoldable pub push_all : Entries (Slot V) → Node V → Node V
  push_all [] dst = dst
  push_all ((b, s) ∷ es) dst = push_all es (insert_child b s dst)

  unfoldable pub copy_into : Node V → Node V → Node V
  copy_into n dst =
      push_all (entries n) (set_exact_leaf (exact_leaf n) (store_prefix (prefix n) dst))
