-- ===== src/Tree/Shrink.antt =====
-- src/raw/shrink.rs: `shrink_to_fit` at quiescence, and `rest` of src/raw/node.rs.
--
-- With no writer about, every attempt of `fit` is its first one: the version validates, the parent
-- still points at the node, and the upgrades succeed. The walk fits the inner children of a node
-- before the node, by byte; what the fit of a child publishes in the node, or unlinks from it, is
-- the write of `settle`.
use artmap.Prelude.{
  ℕ, ◌+◌, ◌-◌, Bool, true, false, ◌&&◌, not, Option, none, some, [], ◌∷◌, ◌++◌, length, leb, ltb,
  ◌==◌, if◌then◌else◌,
}
use artmap.Prelude.Bytes.{Key}
use artmap.Prelude.Entries.{Entries}
use artmap.Tree.{
  NodeType, node4, node16, node48, node256, capacity, fitting, max_prefix_len, Leaf, Slot, null,
  leaf, inner, Node, node, Children, nil, cons, node_type, prefix, exact_leaf, entries,
  num_children, replace_child, remove_child, store_prefix, fresh, copy_into,
}
use artmap.Tree.Remove.{Taken, child, nothing, is_exact, taken_child, to_nat, has_exact}

-- the order of the node types
abbrev pub rank : NodeType → ℕ
rank node4 = 0
rank node16 = 1
rank node48 = 2
rank node256 = 3

abbrev pub is_taken : ℕ → Taken → Bool
is_taken b (child byte) = byte == b
is_taken b _ = false

-- What a node holds besides what is taken.
pub data Rest {ℓ} (V : Type ℓ) : Type ℓ where
  no_entry : Rest V
  one_leaf : Leaf V → Rest V
  one_inner : ℕ → Slot V → Rest V
  many : Rest V

pub data Plan {ℓ} (V : Type ℓ) : Type ℓ where
  unlink : Plan V
  hoist : Leaf V → Plan V
  merge : ℕ → Node V → NodeType → Plan V
  shrink : NodeType → Plan V

-- The prefix of a node merged into its child at a byte, if it fits.
unfoldable pub merged_prefix : Key → ℕ → Key → Option Key
merged_prefix p byte c =
    if ltb max_prefix_len (length p + 1 + length c) then none else some (p ++ byte ∷ c)

module _ {ℓ} {V : Type ℓ} where
  abbrev pub exact_rest : Bool → Option (Leaf V) → Rest V
  exact_rest true (some l) = one_leaf l
  exact_rest _ _ = no_entry

  abbrev pub entry_rest : ℕ → Slot V → Rest V
  entry_rest b (leaf l) = one_leaf l
  entry_rest b s = one_inner b s

  -- a further entry, where none or one was seen
  abbrev pub seen : Rest V → (Rest V → Rest V) → Rest V → Rest V
  seen no_entry next r = next r
  seen _ next r = many

  unfoldable pub scan : Taken → Rest V → Entries (Slot V) → Rest V
  scan taken found [] = found
  scan taken found ((b, c) ∷ es) =
      if is_taken b taken
      then scan taken found es
      else seen found (λ r. scan taken r es) (entry_rest b c)

  -- `saturating_sub` is the subtraction of ℕ.
  unfoldable pub rest : Taken → Node V → Rest V
  unfolding scan
  rest taken n =
      let with_exact = has_exact (exact_leaf n) && not (is_exact taken) in
      if leb 2 (num_children n + to_nat with_exact - taken_child taken)
      then many
      else scan taken (exact_rest with_exact (exact_leaf n)) (entries n)

  -- A null child is never read from a node.
  unfoldable pub plan_single : Node V → ℕ → Slot V → Option (Plan V)
  unfolding fitting
  plan_single n byte (inner c) =
      if leb (length (prefix n) + 1 + length (prefix c)) max_prefix_len
      then some (merge byte c (fitting (num_children c)))
      else if ltb (rank node4) (rank (node_type n))
      then some (shrink node4)
      else none
  plan_single n byte _ = none

  unfoldable pub plan : Node V → Rest V → Option (Plan V)
  unfolding plan_single fitting
  plan n no_entry = some unlink
  plan n (one_leaf l) = some (hoist l)
  plan n (one_inner byte s) = plan_single n byte s
  plan n many =
      if ltb (rank (fitting (num_children n))) (rank (node_type n))
      then some (shrink (fitting (num_children n)))
      else none

  -- A merge whose prefix or layout does not fit leaves the node as it is.
  unfoldable pub merge_into : Node V → Node V → NodeType → Option Key → Slot V
  unfolding capacity fresh copy_into store_prefix
  merge_into n c ty none = inner n
  merge_into n c ty (some bytes) =
      if leb (num_children c) (capacity ty)
      then inner (store_prefix bytes (copy_into c (fresh ty)))
      else inner n

  -- What takes the place of the node: null for a node that is unlinked.
  unfoldable pub replacement : Node V → Option (Plan V) → Slot V
  unfolding merge_into merged_prefix fresh copy_into
  replacement n none = inner n
  replacement n (some unlink) = null
  replacement n (some (hoist l)) = leaf l
  replacement n (some (shrink ty)) = inner (copy_into n (fresh ty))
  replacement n (some (merge byte c ty)) =
      merge_into n c ty (merged_prefix (prefix n) byte (prefix c))

  unfoldable pub fit : Node V → Slot V
  unfolding rest plan replacement
  fit n = replacement n (plan n (rest nothing n))

  -- The slot of a child after its fit. Only inner children are fitted.
  unfoldable pub settle : ℕ → Slot V → Slot V → Node V → Node V
  settle b (inner c) null n = remove_child b n
  settle b (inner c) s n = replace_child b s n
  settle b _ s n = n

unfoldable mutual
  unfolding fit settle

  pub shrink_to_fit {ℓ} : {V : Type ℓ} → Slot V → Slot V
  shrink_to_fit null = null
  shrink_to_fit (leaf l) = leaf l
  shrink_to_fit (inner (node ty p ex cs)) = fit (fit_children cs (node ty p ex cs))

  pub fit_children {ℓ} : {V : Type ℓ} → Children V → Node V → Node V
  fit_children nil n = n
  fit_children (cons b s cs) n = fit_children cs (settle b s (shrink_to_fit s) n)
