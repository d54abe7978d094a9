-- ===== src/Cursor/Keeps.antt =====
-- The leaves past a key, in the order of a direction.
use artmap.Prelude.{
  ◌≡◌, refl, ap, sym, ◌∙◌, Bool, true, false, ◌&&◌, ◌||◌, not, inl, inr, List, [], ◌∷◌, ◌++◌,
  reverse, reverse-append, if◌then◌else◌, Bool-cases,
}
use mathlib.Core.Bool.{false≢true}
use artmap.Prelude.Bytes.{Key, bytes_eq, bytes_eq_comm}
use artmap.Prelude.Order.{key_lt, key_lt_irrefl, key_lt_trans, key_lt-bytes_eq}
use artmap.Tree.{Leaf}
use artmap.Tree.Leaves.{Every, Every-map}
use artmap.Cursor.{Dir, forward, backward, past, is_forward}
use artmap.Cursor.Turns.{directed}

module _ {ℓ} {V : Type ℓ} where
  abbrev pub keep : (Key → Bool) → List (Leaf V) → List (Leaf V)
  keep p [] = []
  keep p (l ∷ ls) = if p l.key then l ∷ keep p ls else keep p ls

  pub keep-append :
      (p : Key → Bool) (xs ys : List (Leaf V)) → keep p (xs ++ ys) ≡ keep p xs ++ keep p ys
  keep-append p [] ys = refl
  keep-append p (x ∷ xs) ys = elim (Bool-cases (p x.key)) [
    | inl h ↦ rw h (ap (λ t. x ∷ t) (keep-append p xs ys))
    | inr h ↦ rw h (keep-append p xs ys)
  ]

  pub keep-all :
      (p : Key → Bool) (xs : List (Leaf V)) → Every (λ l. p l.key ≡ true) xs → keep p xs ≡ xs
  keep-all p [] h = refl
  keep-all p (x ∷ xs) h = rw h.0 (ap (λ t. x ∷ t) (keep-all p xs h.1))

  pub keep-none :
      (p : Key → Bool) (xs : List (Leaf V)) → Every (λ l. p l.key ≡ false) xs → keep p xs ≡ []
  keep-none p [] h = refl
  keep-none p (x ∷ xs) h = rw h.0 (keep-none p xs h.1)

  -- the leaves past a key
  abbrev pub kept : Dir → Key → Bool → List (Leaf V) → List (Leaf V)
  kept d key inclusive ls = directed d (keep (past d key inclusive) ls)

  abbrev pub AllAfter : Key → List (Leaf V) → Type 0
  AllAfter key ls = Every (λ l. key_lt key l.key ≡ true) ls

  abbrev pub AllBefore : Key → List (Leaf V) → Type 0
  AllBefore key ls = Every (λ l. key_lt l.key key ≡ true) ls

pub asym : (a b : Key) → key_lt a b ≡ true → key_lt b a ≡ false
asym a b h = elim (Bool-cases (key_lt b a)) [
  | inr miss ↦ miss
  | inl hit ↦ absurd (false≢true (sym (key_lt_irrefl a) ∙ key_lt_trans a b a h hit))
]

neither : (a b c : Bool) → a ≡ false → c ≡ false → (a || b && c) ≡ false
neither a true c h g = rw (h, g) refl
neither a false c h g = rw h refl

past-after :
    (d : Dir) (key k : Key) (inclusive : Bool)
    → key_lt key k ≡ true
    → past d key inclusive k ≡ is_forward d
past-after forward key k inclusive h = rw h refl
past-after backward key k inclusive h =
    neither (key_lt k key) inclusive (bytes_eq k key) (asym key k h)
      (bytes_eq_comm k key ∙ key_lt-bytes_eq key k h)

past-before :
    (d : Dir) (key k : Key) (inclusive : Bool)
    → key_lt k key ≡ true
    → past d key inclusive k ≡ not (is_forward d)
past-before forward key k inclusive h =
    neither (key_lt key k) inclusive (bytes_eq k key) (asym k key h) (key_lt-bytes_eq k key h)
past-before backward key k inclusive h = rw h refl

module _ {ℓ} {V : Type ℓ} (key : Key) (inclusive : Bool) where
  -- Forward, all leaves after the key are kept; backward, none.
  pub kept-after :
      (d : Dir) (ls : List (Leaf V))
      → AllAfter key ls
      → kept d key inclusive ls ≡ (if is_forward d then ls else [])
  kept-after forward ls a = keep-all (past forward key inclusive) ls (
      Every-map (λ l. key_lt key l.key ≡ true) (λ l. past forward key inclusive l.key ≡ true) ls
        (λ l h. past-after forward key l.key inclusive h) a)
  kept-after backward ls a = ap reverse (
      keep-none (past backward key inclusive) ls (
        Every-map (λ l. key_lt key l.key ≡ true) (λ l. past backward key inclusive l.key ≡ false) ls
          (λ l h. past-after backward key l.key inclusive h) a))

  pub kept-before :
      (d : Dir) (ls : List (Leaf V))
      → AllBefore key ls
      → kept d key inclusive ls ≡ (if is_forward d then [] else reverse ls)
  kept-before forward ls a = keep-none (past forward key inclusive) ls (
      Every-map (λ l. key_lt l.key key ≡ true) (λ l. past forward key inclusive l.key ≡ false) ls
        (λ l h. past-before forward key l.key inclusive h) a)
  kept-before backward ls a = ap reverse (
      keep-all (past backward key inclusive) ls (
        Every-map (λ l. key_lt l.key key ≡ true) (λ l. past backward key inclusive l.key ≡ true) ls
          (λ l h. past-before backward key l.key inclusive h) a))

  pub kept-append :
      (d : Dir) (xs ys : List (Leaf V))
      → kept d key inclusive (xs ++ ys) ≡ (
          if is_forward d
          then kept d key inclusive xs ++ kept d key inclusive ys
          else kept d key inclusive ys ++ kept d key inclusive xs)
  kept-append forward xs ys = keep-append (past forward key inclusive) xs ys
  kept-append backward xs ys =
      ap reverse (keep-append (past backward key inclusive) xs ys)
      ∙ reverse-append (keep (past backward key inclusive) xs)
          (keep (past backward key inclusive) ys)
