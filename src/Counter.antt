-- ===== src/Counter.antt =====
-- src/raw/mod.rs: the striped length counter of a tree.
--
-- A stripe holds a signed machine word, as a number below 2 ^ 64 in two's complement, so a
-- negative delta is added as 2 ^ 64 less its size. Each add is one atomic step on one stripe.
pub mod Sum
mod Tests
use artmap.Prelude.{
  ℕ, zero, suc, ◌+◌, ◌-◌, ◌%◌, ◌^◌, ◌≡◌, List, [], ◌∷◌, length, ltb, ◌==◌, if◌then◌else◌,
}

abbrev pub word_size : ℕ
word_size = 2 ^ 64

abbrev pub stripe_count : ℕ
stripe_count = 8

abbrev zeros : ℕ → List ℕ
zeros zero = []
zeros (suc n) = 0 ∷ zeros n

unfoldable pub new_counter : List ℕ
new_counter = zeros stripe_count

-- `fetch_add` on one stripe
unfoldable pub add_at : ℕ → ℕ → List ℕ → List ℕ
add_at stripe n [] = []
add_at zero n (x ∷ stripes) = (x + n) % word_size ∷ stripes
add_at (suc stripe) n (x ∷ stripes) = x ∷ add_at stripe n stripes

-- the fold of `sum`, from an accumulator
unfoldable pub sum_from : ℕ → List ℕ → ℕ
sum_from acc [] = acc
sum_from acc (x ∷ stripes) = sum_from ((acc + x) % word_size) stripes

unfoldable pub sum : List ℕ → ℕ
unfolding sum_from
sum stripes = sum_from 0 stripes

-- Nothing is added for 0.
unfoldable pub len_add : ℕ → ℕ → List ℕ → List ℕ
unfolding add_at
len_add stripe n stripes = if n == 0 then stripes else add_at stripe n stripes

-- The sum, clamped at zero: a word of 2 ^ 63 or more is negative.
unfoldable pub tree_len : List ℕ → ℕ
unfolding sum
tree_len stripes = if ltb (sum stripes) (2 ^ 63) then sum stripes else 0

-- The counter after a run of adds by any threads, the last one first.
unfoldable pub len_add_all : List (ℕ × ℕ) → List ℕ
unfolding new_counter len_add
len_add_all [] = new_counter
len_add_all ((stripe, n) ∷ adds) = len_add (stripe % stripe_count) n (len_add_all adds)
