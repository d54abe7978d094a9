-- ===== src/Versions/Tests.antt =====
-- A chain of three versions, read and edited.
use artmap.Prelude.{ℕ, ◌≡◌, Bool, true, false, none, some, List, [], ◌∷◌, arith}
use artmap.Versions.{
  to_count, Version, VersionedLeaf, find_le, alloc_version, apply_locked, prune_leaf,
  unlink_version,
}
use artmap.Prelude.Ints.{sub_ℕ}
use artmap.Versions.Reads.{live_after, apply_locked-delta, IsDescending, or_newer, find_le-apply}
use artmap.Versions.Edits.{PruneKeeps, Unlinked, prune_leaf-PruneKeeps, unlink_version-Unlinked}

abbrev at_version : ℕ → ℕ → Version ℕ
at_version version value = record { version = version; value = some value; inline = false }

abbrev three_versions : VersionedLeaf ℕ
three_versions = record {
  chain = at_version 9 90 ∷ at_version 5 50 ∷ at_version 2 20 ∷ [];
  slot1_init = true;
}

three_versions-IsDescending : IsDescending three_versions.chain
three_versions-IsDescending = ((omega arith, (omega arith, tt)), ((omega arith, tt), (tt, tt)))

find_le-apply_example :
    IsDescending (apply_locked three_versions 7 (some 70)).leaf.chain
    × (find_le (apply_locked three_versions 7 (some 70)).leaf.chain 8
        ≡ or_newer 8 (alloc_version three_versions 7 (some 70)) (find_le three_versions.chain 8))
find_le-apply_example = find_le-apply three_versions 7 (some 70) 8 three_versions-IsDescending

abbrev never : ℕ → Bool
never v = false

prune_leaf-PruneKeeps_example :
    PruneKeeps never 8 three_versions.chain (prune_leaf never 6 three_versions)
prune_leaf-PruneKeeps_example =
    prune_leaf-PruneKeeps never 6 8 three_versions three_versions-IsDescending (omega arith)

unlink_version-Unlinked_example :
    Unlinked 5 three_versions.chain (unlink_version 5 three_versions.chain)
unlink_version-Unlinked_example =
    unlink_version-Unlinked 5 three_versions.chain three_versions-IsDescending

abbrev older_versions : List (Version ℕ)
older_versions = at_version 5 50 ∷ []

apply_locked-delta_example :
    (apply_locked
      (record { chain = at_version 9 90 ∷ older_versions; slot1_init = true })
      9
      none).delta
    ≡ sub_ℕ (to_count (live_after (at_version 9 90) 9 none)) (to_count true)
apply_locked-delta_example = apply_locked-delta (at_version 9 90) older_versions true 9 none
