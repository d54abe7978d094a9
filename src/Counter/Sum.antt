-- ===== src/Counter/Sum.antt =====
-- The sum of the stripes, and the sum of what was added.
use artmap.Prelude.{
  ℕ, zero, suc, ◌+◌, ◌%◌, ◌^◌, ◌≡◌, ◌<◌, refl, ap, ◌∙◌, inl, inr, List, [], ◌∷◌, length, ltb, ◌==◌,
  if◌then◌else◌, Bool-cases, arith,
}
use artmap.Counter.{
  word_size, stripe_count, new_counter, add_at, sum_from, sum, len_add, tree_len, len_add_all,
}

sum_from-add :
    (a n : ℕ) (xs : List ℕ) → sum_from ((a + n) % word_size) xs ≡ (sum_from a xs + n) % word_size
unfolding sum_from
sum_from-add a n [] = refl
sum_from-add a n (x ∷ xs) =
    ap (λ t. sum_from t xs)
      (let e : ((a + n) % word_size + x) % word_size ≡ ((a + x) % word_size + n) % word_size =
          omega arith in
        e)
    ∙ sum_from-add ((a + x) % word_size) n xs

sum_from-add_at :
    (a stripe n : ℕ) (xs : List ℕ)
    → stripe < length xs
    → sum_from a (add_at stripe n xs) ≡ (sum_from a xs + n) % word_size
unfolding sum_from add_at
sum_from-add_at a stripe n [] lt = absurd (omega arith)
sum_from-add_at a zero n (x ∷ xs) lt =
    ap (λ t. sum_from t xs)
      (let e : (a + (x + n) % word_size) % word_size ≡ ((a + x) % word_size + n) % word_size =
          omega arith in
        e)
    ∙ sum_from-add ((a + x) % word_size) n xs
sum_from-add_at a (suc stripe) n (x ∷ xs) lt =
    sum_from-add_at ((a + x) % word_size) stripe n xs (omega arith)

length-add_at : (stripe n : ℕ) (xs : List ℕ) → length (add_at stripe n xs) ≡ length xs
unfolding add_at
length-add_at stripe n [] = refl
length-add_at zero n (x ∷ xs) = refl
length-add_at (suc stripe) n (x ∷ xs) = ap suc (length-add_at stripe n xs)

-- what was added, as a machine word
abbrev pub total : List (ℕ × ℕ) → ℕ
total [] = 0
total ((stripe, n) ∷ adds) = (total adds + n) % word_size

total-lt : (adds : List (ℕ × ℕ)) → total adds < word_size
total-lt [] = omega arith
total-lt ((stripe, n) ∷ adds) = omega arith

len_add-Sum :
    (stripe n : ℕ) (xs : List ℕ)
    → stripe < length xs
    → sum xs < word_size
    → (length (len_add stripe n xs) ≡ length xs)
      × (sum (len_add stripe n xs) ≡ (sum xs + n) % word_size)
unfolding len_add sum
len_add-Sum stripe n xs lt small = elim (Bool-cases (n == 0)) [
  | inl nothing ↦ rw nothing (refl, let e : n ≡ 0 = ground arith in omega (arith, e, small))
  | inr some_n ↦ rw some_n (length-add_at stripe n xs, sum_from-add_at 0 stripe n xs lt)
]

stripes :
    (adds : List (ℕ × ℕ))
    → (length (len_add_all adds) ≡ stripe_count) × (sum (len_add_all adds) ≡ total adds)
unfolding len_add_all
stripes [] = (unfold new_counter in refl, unfold new_counter in unfold sum in refl)
stripes ((stripe, n) ∷ adds) =
    let (l, s) = stripes adds in
    let q =
      len_add-Sum (stripe % stripe_count) n (len_add_all adds) (omega (arith, l))
        (omega (arith, s, total-lt adds)) in
    (q.0 ∙ l, q.1 ∙ ap (λ t. (t + n) % word_size) s)

-- However the threads spread their adds over the stripes, the sum of the stripes is the sum of
-- what was added, modulo 2 ^ 64, and the length is that sum when it is not negative.
pub tree_len-total :
    (adds : List (ℕ × ℕ))
    → (sum (len_add_all adds) ≡ total adds)
      × (tree_len (len_add_all adds) ≡ (if ltb (total adds) (2 ^ 63) then total adds else 0))
unfolding tree_len
tree_len-total adds = let (l, s) = stripes adds in (s, rw s refl)
