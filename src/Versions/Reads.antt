-- ===== src/Versions/Reads.antt =====
-- Chains in descending order, and what a read at a version finds in one.
use artmap.Prelude.{
  ℕ, ◌≤◌, ◌<◌, ◌≡◌, refl, ap, inl, inr, Bool, Bool-cases, true, false, not, ltb, ◌==◌, ◌&&◌, Option,
  none, some, List, [], ◌∷◌, leb, if◌then◌else◌, arith,
}
use artmap.Prelude.Ints.{sub_ℕ}
use artmap.Versions.{
  is_tombstone, live_head, to_count, Version, VersionedLeaf, find_le, link_version, apply_locked,
  alloc_version, keep_to,
}

module _ {ℓ} {V : Type ℓ} where
  abbrev pub Below : ℕ → List (Version V) → Type 0
  Below m [] = Unit
  Below m (n ∷ ns) = (n.version < m) × Below m ns

  -- strictly newest first
  abbrev pub IsDescending : List (Version V) → Type 0
  IsDescending [] = Unit
  IsDescending (n ∷ ns) = Below n.version ns × IsDescending ns

  -- The node that is read, once `node` is there too: a newer one hides it.
  abbrev pub or_newer : ℕ → Version V → Option (Version V) → Option (Version V)
  or_newer max_version node none = if leb node.version max_version then some node else none
  or_newer max_version node (some n) =
      if leb node.version max_version && leb n.version node.version then some node else some n

  Below-link :
      (m : ℕ) (node : Version V) (ns : List (Version V))
      → node.version < m
      → Below m ns
      → Below m (link_version node ns)
  unfolding link_version
  Below-link m node [] lt b = (lt, tt)
  Below-link m node (n ∷ ns) lt b = ground (arith, Below-link m node ns)

  Below-mono : (m k : ℕ) (ns : List (Version V)) → m ≤ k → Below m ns → Below k ns
  Below-mono m k [] le b = tt
  Below-mono m k (n ∷ ns) le b = (omega arith, Below-mono m k ns le b.1)

  pub link_version-IsDescending :
      (node : Version V) (ns : List (Version V))
      → IsDescending ns
      → IsDescending (link_version node ns)
  unfolding link_version
  link_version-IsDescending node [] d = (tt, tt)
  link_version-IsDescending node (n ∷ ns) d = ground (
    arith,
    link_version-IsDescending node ns,
    Below-link n.version node ns,
    Below-mono n.version node.version ns,
  )

  or_newer_above :
      (max_version : ℕ) (node : Version V) (o : Option (Version V))
      → leb node.version max_version ≡ false
      → or_newer max_version node o ≡ o
  or_newer_above max_version node none h = rw h
  or_newer_above max_version node (some n) h = rw h

  find_le-link_version :
      (max_version : ℕ) (node : Version V) (ns : List (Version V))
      → IsDescending ns
      → find_le (link_version node ns) max_version
        ≡ or_newer max_version node (find_le ns max_version)
  unfolding find_le link_version
  find_le-link_version max_version node [] d = ground arith
  find_le-link_version max_version node (n ∷ ns) d = ground (
    arith,
    find_le-link_version max_version node ns d.1,
    or_newer_above max_version node (find_le ns max_version),
  )

  -- A version applied to a chain in descending order leaves it so, and hides from a read at
  -- `max_version` exactly what is not newer than it: the read finds the applied version if it is
  -- at most `max_version` and at least the version found before, and else what it found before.
  pub find_le-apply :
      (l : VersionedLeaf V) (version : ℕ) (value : Option V) (max_version : ℕ)
      → IsDescending l.chain
      → IsDescending (apply_locked l version value).leaf.chain
        × (find_le (apply_locked l version value).leaf.chain max_version
            ≡ or_newer max_version (alloc_version l version value) (find_le l.chain max_version))
  unfolding apply_locked
  find_le-apply l version value max_version d = (
    link_version-IsDescending (alloc_version l version value) l.chain d,
    find_le-link_version max_version (alloc_version l version value) l.chain d,
  )

  -- A read at or above the bound of a trim finds what it found before.
  pub find_le-keep_to :
      (min_version max_version : ℕ) (ns : List (Version V))
      → IsDescending ns
      → min_version ≤ max_version
      → find_le (keep_to min_version ns) max_version ≡ find_le ns max_version
  unfolding find_le keep_to
  find_le-keep_to min_version max_version [] d le = refl
  find_le-keep_to min_version max_version (n ∷ ns) d le =
      ground (arith, find_le-keep_to min_version max_version ns d.1 le)

  -- Whether a key is live once a version is applied behind the head `h`: only a version at or
  -- above the head's decides it anew.
  abbrev pub live_after : Version V → ℕ → Option V → Bool
  live_after h version value =
      if ltb version h.version
      then not (is_tombstone h)
      else elim value [ none ↦ false | some v ↦ true ]

  live_head-link_version :
      (h : Version V) (ns : List (Version V)) (version : ℕ) (value : Option V) (inline : Bool)
      → live_head
          (link_version (record { version = version; value = value; inline = inline }) (h ∷ ns))
        ≡ live_after h version value
  unfolding link_version
  live_head-link_version h ns version value inline = elim (Bool-cases (ltb version h.version)) [
    | inl below ↦ rw below refl
    | inr here ↦ rw here (elim (Bool-cases (h.version == version)) [
      | inl same ↦ rw same (live_value value)
      | inr other ↦ rw other (live_value value)
    ])
  ]
    where
      live_value :
          (value : Option V)
          → live_head (record { version = version; value = value; inline = inline } ∷ ns)
            ≡ (elim value as (λ v. Bool) [ none ↦ false | some v ↦ true ])
      live_value none = refl
      live_value (some v) = refl

  -- The change in the number of live keys that an applied version reports is the liveness of the
  -- key afterwards less its liveness before, and afterwards the newest version decides: the
  -- applied one if it is at least the head's, else the head as before, with no change.
  pub apply_locked-delta :
      (h : Version V) (ns : List (Version V)) (slot1_init : Bool) (version : ℕ) (value : Option V)
      → (apply_locked (record { chain = h ∷ ns; slot1_init = slot1_init }) version value).delta
        ≡ sub_ℕ (to_count (live_after h version value)) (to_count (not (is_tombstone h)))
  unfolding apply_locked alloc_version
  apply_locked-delta h ns slot1_init version value =
      ap (λ b. sub_ℕ (to_count b) (to_count (not (is_tombstone h))))
        (live_head-link_version h ns version value (not slot1_init))
