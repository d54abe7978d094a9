-- ===== src/Prelude/Entries.antt =====
-- The children of a node, as its bytes in order and what stands at each: the abstract view of the
-- four node layouts of src/raw/node.rs.
use artmap.Prelude.Tests.{◌==◌, ltb, if◌then◌else◌}
use artmap.Prelude.Lists.{length}
use Prim.Native.Nat.{ℕ, suc, ◌<◌}
use mathlib.Core.Path.{◌≡◌, refl}
use mathlib.Core.Option.{Option, none, some}
use mathlib.Core.List.{List, [], ◌∷◌}
use native.Mathlib.Omega.{arith}

abbrev pub Entries {ℓ} : Type ℓ → Type ℓ
Entries A = List (ℕ × A)

module _ {ℓ} {A : Type ℓ} where
  unfoldable pub find : ℕ → Entries A → Option A
  find b [] = none
  find b ((k, c) ∷ es) = if k == b then some c else find b es

  -- in byte order, before an equal byte
  unfoldable pub insert : ℕ → A → Entries A → Entries A
  insert b a [] = (b, a) ∷ []
  insert b a ((k, c) ∷ es) = if ltb k b then (k, c) ∷ insert b a es else (b, a) ∷ (k, c) ∷ es

  unfoldable pub replace : ℕ → A → Entries A → Entries A
  replace b a [] = []
  replace b a ((k, c) ∷ es) = if k == b then (k, a) ∷ es else (k, c) ∷ replace b a es

  unfoldable pub remove : ℕ → Entries A → Entries A
  remove b [] = []
  remove b ((k, c) ∷ es) = if k == b then es else (k, c) ∷ remove b es

  -- every byte lies above `b`
  abbrev pub Above : ℕ → Entries A → Type 0
  Above b [] = Unit
  Above b ((k, c) ∷ es) = (b < k) × Above b es

  abbrev pub IsSorted : Entries A → Type 0
  IsSorted [] = Unit
  IsSorted ((k, c) ∷ es) = Above k es × IsSorted es

module _ {ℓ} {A : Type ℓ} where
  pub find-insert :
      (b j : ℕ) (a : A) (es : Entries A)
      → find j (insert b a es) ≡ (if b == j then some a else find j es)
  unfolding find insert
  find-insert b j a [] = refl
  find-insert b j a ((k, c) ∷ es) = ground (arith, find-insert b j a es)

  pub find-replace :
      (b j : ℕ) (a : A) {old : A} (es : Entries A)
      → find b es ≡ some old
      → find j (replace b a es) ≡ (if b == j then some a else find j es)
  unfolding find replace
  find-replace b j a {old} [] h = cc
  find-replace b j a {old} ((k, c) ∷ es) h = ground (arith, find-replace b j a {old = old} es)

  pub find-Above : (b j : ℕ) (es : Entries A) → Above b es → j < suc b → find j es ≡ none
  unfolding find
  find-Above b j [] h lt = refl
  find-Above b j ((k, c) ∷ es) h lt = ground (arith, find-Above b j es h.1 lt)

  pub find-remove :
      (b j : ℕ) (es : Entries A)
      → IsSorted es
      → find j (remove b es) ≡ (if b == j then none else find j es)
  unfolding find remove
  find-remove b j [] s = ground arith
  find-remove b j ((k, c) ∷ es) s = ground (arith, find-remove b j es s.1, find-Above k j es s.0)

  Above-insert : (m b : ℕ) (a : A) (es : Entries A) → m < b → Above m es → Above m (insert b a es)
  unfolding insert
  Above-insert m b a [] lt h = (lt, tt)
  Above-insert m b a ((k, c) ∷ es) lt h = ground (arith, Above-insert m b a es)

  Above-mono : (m n : ℕ) (es : Entries A) → m < n → Above n es → Above m es
  Above-mono m n [] lt h = tt
  Above-mono m n ((k, c) ∷ es) lt h = (omega arith, Above-mono m n es lt h.1)

  -- Inserting an absent byte keeps the order.
  pub insert-IsSorted :
      (b : ℕ) (a : A) (es : Entries A) → find b es ≡ none → IsSorted es → IsSorted (insert b a es)
  unfolding insert find
  insert-IsSorted b a [] n s = (tt, tt)
  insert-IsSorted b a ((k, c) ∷ es) n s =
      ground (arith, insert-IsSorted b a es, Above-insert k b a es, Above-mono b k es)

  Above-replace : (m b : ℕ) (a : A) (es : Entries A) → Above m es → Above m (replace b a es)
  unfolding replace
  Above-replace m b a [] h = tt
  Above-replace m b a ((k, c) ∷ es) h = ground (arith, Above-replace m b a es)

  pub replace-IsSorted : (b : ℕ) (a : A) (es : Entries A) → IsSorted es → IsSorted (replace b a es)
  unfolding replace
  replace-IsSorted b a [] s = tt
  replace-IsSorted b a ((k, c) ∷ es) s =
      ground (arith, replace-IsSorted b a es, Above-replace k b a es)

  Above-remove : (m b : ℕ) (es : Entries A) → Above m es → Above m (remove b es)
  unfolding remove
  Above-remove m b [] h = tt
  Above-remove m b ((k, c) ∷ es) h = ground (arith, Above-remove m b es)

  pub remove-IsSorted : (b : ℕ) (es : Entries A) → IsSorted es → IsSorted (remove b es)
  unfolding remove
  remove-IsSorted b [] s = tt
  remove-IsSorted b ((k, c) ∷ es) s = ground (arith, remove-IsSorted b es, Above-remove k b es)

  pub length-insert : (b : ℕ) (a : A) (es : Entries A) → length (insert b a es) ≡ suc (length es)
  unfolding insert
  length-insert b a [] = refl
  length-insert b a ((k, c) ∷ es) = ground (arith, length-insert b a es)

  pub length-replace : (b : ℕ) (a : A) (es : Entries A) → length (replace b a es) ≡ length es
  unfolding replace
  length-replace b a [] = refl
  length-replace b a ((k, c) ∷ es) = ground (arith, length-replace b a es)

  pub length-remove :
      (b : ℕ) {old : A} (es : Entries A)
      → find b es ≡ some old
      → suc (length (remove b es)) ≡ length es
  unfolding remove find
  length-remove b {old} [] h = cc
  length-remove b {old} ((k, c) ∷ es) h = ground (arith, length-remove b {old = old} es)
