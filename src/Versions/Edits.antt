-- ===== src/Versions/Edits.antt =====
-- What a prune and a remove of one version leave in a chain.
use artmap.Prelude.{
  ℕ, ◌+◌, ◌≤◌, ◌<◌, ◌≡◌, refl, Bool, true, false, ◌&&◌, Option, none, some, inl, inr, Bool-cases,
  ltb-false, List, [], ◌∷◌, length, ltb, leb, ◌==◌, if◌then◌else◌, arith,
}
use artmap.Versions.{
  Version, VersionedLeaf, find_le, keep_to, older_than, prune_leaf, prune_chain, trim, Pruned,
  nothing_old, unlinks, trims, is_dead_value, unlink_version, behind,
}
use artmap.Versions.Reads.{IsDescending, Below, find_le-keep_to}

module _ {ℓ} {V : Type ℓ} where
  -- What a prune that `accepts` values as deletions must leave to a reader at `max_version`.
  abbrev pub PruneKeeps : (V → Bool) → ℕ → List (Version V) → Pruned V → Type ℓ
  PruneKeeps accepts max_version ns nothing_old = Unit
  PruneKeeps accepts max_version ns (unlinks count) =
      (count ≡ length ns)
      × (n : Version V) × (find_le ns max_version ≡ some n)
      × (is_dead_value accepts n.value ≡ true)
  PruneKeeps accepts max_version ns (trims l count) =
      (find_le l.chain max_version ≡ find_le ns max_version) × (length l.chain + count ≡ length ns)

  length-keep_to :
      (m : ℕ) (ns : List (Version V)) → length (keep_to m ns) + length (older_than m ns) ≡ length ns
  unfolding keep_to older_than
  length-keep_to m [] = refl
  length-keep_to m (n ∷ ns) = ground (arith, length-keep_to m ns)

  unlinks_Keeps :
      (accepts : V → Bool) (min_version max_version : ℕ) (h : Version V) (ns all : List (Version V))
      → all ≡ h ∷ ns
      → leb h.version min_version && is_dead_value accepts h.value ≡ true
      → min_version ≤ max_version
      → PruneKeeps accepts max_version all (unlinks (length all))
  unfolding find_le
  unlinks_Keeps accepts min_version max_version h ns all e b le =
      (refl, h, rw e (ground arith), ground arith)

  trims_Keeps :
      (accepts : V → Bool) (min_version max_version : ℕ) (l : VersionedLeaf V)
      → IsDescending l.chain
      → min_version ≤ max_version
      → PruneKeeps accepts max_version l.chain (trim min_version l)
  unfolding trim
  trims_Keeps accepts min_version max_version l d le =
      (find_le-keep_to min_version max_version l.chain d le, length-keep_to min_version l.chain)

  prune_chain_Keeps :
      (accepts : V → Bool) (min_version max_version : ℕ) (l : VersionedLeaf V)
      (ns : List (Version V)) (t : Option (Version V))
      → l.chain ≡ ns
      → IsDescending l.chain
      → min_version ≤ max_version
      → PruneKeeps accepts max_version l.chain (prune_chain accepts min_version l ns t)
  unfolding prune_chain
  prune_chain_Keeps accepts min_version max_version l [] t e d le = tt
  prune_chain_Keeps accepts min_version max_version l (h ∷ ns) none e d le = tt
  prune_chain_Keeps accepts min_version max_version l (h ∷ ns) (some t) e d le =
      elim (Bool-cases (leb h.version min_version && is_dead_value accepts h.value)) [
        | inl dead ↦ rw dead (unlinks_Keeps accepts min_version max_version h ns l.chain e dead le)
        | inr live ↦ rw live (trims_Keeps accepts min_version max_version l d le)
      ]

  -- A prune at `min_version` of a chain in descending order is invisible to every reader at or
  -- above it: either nothing changes, or the older versions go and the reader finds what it found before, or the whole leaf goes
  -- and the newest version, which the reader found, is a deletion when the reader's bound reaches it.
  -- The count is the number of versions that went.
  pub prune_leaf-PruneKeeps :
      (accepts : V → Bool) (min_version max_version : ℕ) (l : VersionedLeaf V)
      → IsDescending l.chain
      → min_version ≤ max_version
      → PruneKeeps accepts max_version l.chain (prune_leaf accepts min_version l)
  unfolding prune_leaf
  prune_leaf-PruneKeeps accepts min_version max_version l d le =
      prune_chain_Keeps accepts min_version max_version l l.chain (find_le l.chain min_version) refl
        d le

  -- what a read of exactly one version finds
  abbrev pub find_version : ℕ → List (Version V) → Option (Version V)
  find_version version [] = none
  find_version version (n ∷ ns) = if n.version == version then some n else find_version version ns

  -- What removing a version does to the chain, by the result.
  abbrev pub Unlinked : ℕ → List (Version V) → Option (List (Version V)) → Type ℓ
  Unlinked version ns none = find_version version ns ≡ none
  Unlinked version ns (some ms) =
      (other : ℕ)
      → find_version other ms ≡ (if version == other then none else find_version other ns)

  find_version-Below :
      (m version : ℕ) (ns : List (Version V))
      → Below m ns
      → m ≤ version
      → find_version version ns ≡ none
  find_version-Below m version [] b le = refl
  find_version-Below m version (n ∷ ns) b le =
      ground (arith, find_version-Below m version ns b.1 le)

  behind-Unlinked :
      (version : ℕ) (n : Version V) (ns : List (Version V)) (o : Option (List (Version V)))
      → version < n.version
      → Unlinked version ns o
      → Unlinked version (n ∷ ns) (behind n o)
  behind-Unlinked version n ns none lt h = ground arith
  behind-Unlinked version n ns (some ms) lt h = λ other. ground (arith, h other)

  unlinked_none :
      (version : ℕ) (n : Version V) (ns : List (Version V))
      → Below n.version ns
      → ltb version n.version ≡ false
      → (n.version == version) ≡ false
      → find_version version (n ∷ ns) ≡ none
  unlinked_none version n ns b lt ne =
      rw ne (find_version-Below n.version version ns b (ltb-false version n.version lt))

  -- Unlinking a version from a chain in descending order takes exactly that version: it fails only
  -- if the chain has no such version, and else every other version is found as before.
  pub unlink_version-Unlinked :
      (version : ℕ) (ns : List (Version V))
      → IsDescending ns
      → Unlinked version ns (unlink_version version ns)
  unfolding unlink_version
  unlink_version-Unlinked version [] d = refl
  unlink_version-Unlinked version (n ∷ ns) d = elim (Bool-cases (ltb version n.version)) [
    | inl below ↦ rw below (
        behind-Unlinked version n ns (unlink_version version ns) (ground arith)
          (unlink_version-Unlinked version ns d.1))
    | inr here ↦ rw here (elim (Bool-cases (n.version == version)) [
      | inl same ↦ rw same (λ other. ground (arith, find_version-Below n.version version ns d.0))
      | inr other ↦ rw other (unlinked_none version n ns d.0 here other)
    ])
  ]
