-- ===== src/Versions.antt =====
-- src/versioned: the version chain of one key, newest first, and the operations on it, each as it
-- runs under the chain's lock.
--
-- A chain is the list of the nodes that `next` reaches from `head`. A leaf has two inline slots:
-- the first is in use from the start, and `slot1_init` says whether the second is.
pub mod Reads
pub mod Edits
mod Tests
use artmap.Prelude.{
  ℕ, ◌+◌, Bool, true, false, ◌&&◌, ◌||◌, not, Option, none, some, List, [], ◌∷◌, length, ltb, leb,
  ◌==◌, if◌then◌else◌,
}
use artmap.Prelude.Ints.{ℤ, sub_ℕ}

pub record Version {ℓ} (V : Type ℓ) : Type ℓ where
  pub version : ℕ
  pub value : Option V
  pub inline : Bool

pub record VersionedLeaf {ℓ} (V : Type ℓ) : Type ℓ where
  pub chain : List (Version V)
  pub slot1_init : Bool

-- `isize::from` of a liveness
abbrev pub to_count : Bool → ℕ
to_count true = 1
to_count false = 0

pub record Applied {ℓ} (V : Type ℓ) : Type ℓ where
  pub leaf : VersionedLeaf V
  pub delta : ℤ
  pub retired : Option (Version V)

-- What a prune does: the whole leaf goes with its versions, or the older versions do.
pub data Pruned {ℓ} (V : Type ℓ) : Type ℓ where
  nothing_old : Pruned V
  unlinks : ℕ → Pruned V
  trims : VersionedLeaf V → ℕ → Pruned V

pub data VersionRemoved {ℓ} (V : Type ℓ) : Type ℓ where
  no_such : VersionRemoved V
  whole_leaf : VersionRemoved V
  edits : VersionedLeaf V → ℤ → VersionRemoved V

module _ {ℓ} {V : Type ℓ} where
  abbrev pub is_tombstone : Version V → Bool
  is_tombstone n = elim n.value [ none ↦ true | some v ↦ false ]

  -- Whether the newest version of the chain is live.
  abbrev pub live_head : List (Version V) → Bool
  live_head [] = false
  live_head (n ∷ ns) = not (is_tombstone n)

  unfoldable pub new_boxed : ℕ → Option V → VersionedLeaf V
  new_boxed version value = record {
    chain = record { version = version; value = value; inline = true } ∷ [];
    slot1_init = false;
  }

  unfoldable pub find_le : List (Version V) → ℕ → Option (Version V)
  find_le [] max_version = none
  find_le (n ∷ ns) max_version =
      if leb n.version max_version then some n else find_le ns max_version

  -- The free inline slot if there is one, else a heap node.
  unfoldable pub alloc_version : VersionedLeaf V → ℕ → Option V → Version V
  alloc_version l version value = record {
    version = version;
    value = value;
    inline = not l.slot1_init;
  }

  -- The walk to the position of a node, and the link into the chain: a node of the same version
  -- is replaced.
  unfoldable pub link_version : Version V → List (Version V) → List (Version V)
  link_version node [] = node ∷ []
  link_version node (n ∷ ns) =
      if ltb node.version n.version
      then n ∷ link_version node ns
      else if n.version == node.version
      then node ∷ ns
      else node ∷ n ∷ ns

  -- The node that the link replaces.
  unfoldable pub replaced_version : ℕ → List (Version V) → Option (Version V)
  replaced_version version [] = none
  replaced_version version (n ∷ ns) =
      if ltb version n.version
      then replaced_version version ns
      else if n.version == version
      then some n
      else none

  -- Only a heap node is retired on its own.
  unfoldable pub retire_version : Option (Version V) → Option (Version V)
  retire_version none = none
  retire_version (some n) = if n.inline then none else some n

  unfoldable pub apply_locked : VersionedLeaf V → ℕ → Option V → Applied V
  unfolding alloc_version link_version replaced_version retire_version
  apply_locked l version value =
      let node = alloc_version l version value in
      let chain' = link_version node l.chain in
      record {
        leaf = record { chain = chain'; slot1_init = true };
        delta = sub_ℕ (to_count (live_head chain')) (to_count (live_head l.chain));
        retired = retire_version (replaced_version version l.chain);
      }

  -- A tombstone of the head's version in place of a live head.
  unfoldable pub remove_head : VersionedLeaf V → Option (VersionedLeaf V × Version V)
  unfolding alloc_version
  remove_head l = elim l.chain [
    | [] ↦ none
    | h ∷ ns ↦
        if is_tombstone h
        then none
        else some (record { chain = alloc_version l h.version none ∷ ns; slot1_init = true }, h)
  ]

  -- The chain down to the newest version at or below a bound.
  unfoldable pub keep_to : ℕ → List (Version V) → List (Version V)
  keep_to min_version [] = []
  keep_to min_version (n ∷ ns) =
      if leb n.version min_version then n ∷ [] else n ∷ keep_to min_version ns

  unfoldable pub older_than : ℕ → List (Version V) → List (Version V)
  older_than min_version [] = []
  older_than min_version (n ∷ ns) =
      if leb n.version min_version then ns else older_than min_version ns

  -- `value().is_none_or(is_tombstone)`
  abbrev pub is_dead_value : (V → Bool) → Option V → Bool
  is_dead_value accepts none = true
  is_dead_value accepts (some v) = accepts v

  unfoldable pub trim : ℕ → VersionedLeaf V → Pruned V
  unfolding keep_to older_than
  trim min_version l =
      trims (record l { chain = keep_to min_version l.chain })
        (length (older_than min_version l.chain))

  -- The newest version, and the newest at or below the bound, decide what goes.
  unfoldable pub prune_chain :
      (V → Bool) → ℕ → VersionedLeaf V → List (Version V) → Option (Version V) → Pruned V
  unfolding trim
  prune_chain accepts min_version l [] t = nothing_old
  prune_chain accepts min_version l (h ∷ ns) none = nothing_old
  prune_chain accepts min_version l (h ∷ ns) (some t) =
      if leb h.version min_version && is_dead_value accepts h.value
      then unlinks (length l.chain)
      else trim min_version l

  -- A prune that no other writer disturbs.
  unfoldable pub prune_leaf : (V → Bool) → ℕ → VersionedLeaf V → Pruned V
  unfolding find_le prune_chain
  prune_leaf accepts min_version l =
      prune_chain accepts min_version l l.chain (find_le l.chain min_version)

  abbrev pub behind : Version V → Option (List (Version V)) → Option (List (Version V))
  behind n none = none
  behind n (some ms) = some (n ∷ ms)

  -- The chain without exactly one version.
  unfoldable pub unlink_version : ℕ → List (Version V) → Option (List (Version V))
  unlink_version version [] = none
  unlink_version version (n ∷ ns) =
      let rest = behind n (unlink_version version ns) in
      if ltb version n.version then rest else if n.version == version then some ns else none

  unfoldable pub remove_version : ℕ → VersionedLeaf V → VersionRemoved V
  unfolding unlink_version
  remove_version version l = elim (unlink_version version l.chain) [
    | none ↦ no_such
    | some [] ↦ whole_leaf
    | some (n ∷ ns) ↦
        edits (record l { chain = n ∷ ns })
          (sub_ℕ (to_count (live_head (n ∷ ns))) (to_count (live_head l.chain)))
  ]
