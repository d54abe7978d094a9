-- ===== src/Counter/Tests.antt =====
-- Two inserts and a remove, by threads on different stripes.
use artmap.Prelude.{ℕ, ◌-◌, ◌^◌, ◌≡◌, refl, List, [], ◌∷◌, ltb, if◌then◌else◌}
use artmap.Counter.{sum, tree_len, len_add_all, sum_from}
use artmap.Counter.Sum.{total, tree_len-total}

abbrev three_adds : List (ℕ × ℕ)
three_adds = (3, 2 ^ 64 - 1) ∷ (9, 1) ∷ (1, 1) ∷ []

one_left : tree_len (len_add_all three_adds) ≡ 1
unfolding tree_len len_add_all sum_from
one_left = refl

tree_len-total_example :
    (sum (len_add_all three_adds) ≡ total three_adds)
    × (tree_len (len_add_all three_adds)
        ≡ (if ltb (total three_adds) (2 ^ 63) then total three_adds else 0))
tree_len-total_example = tree_len-total three_adds
