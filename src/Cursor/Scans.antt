-- ===== src/Cursor/Scans.antt =====
-- A scan: every yield of one end.
use artmap.Prelude.{
  ℕ, zero, suc, ◌<◌, ◌≡◌, refl, ap, sym, ◌∙◌, Bool, false, inl, inr, Option, none, some, List, [],
  ◌∷◌, length, if◌then◌else◌, arith,
}
use mathlib.Core.Path.{subst}
use artmap.Prelude.Bytes.{Key}
use artmap.Tree.{Leaf, Slot}
use artmap.Cursor.{Dir}
use artmap.Cursor.Sides.{Side, Cursor, other_of, inside, take_pending, advance}
use artmap.Cursor.Accepts.{Holds, Scans, Yields}
use artmap.Cursor.Advances.{pending_step, advance-Yields}

module _ {ℓ} {V : Type ℓ} where
  abbrev pub yielded : (Cursor V → List (Leaf V)) → Option (Leaf V) × Cursor V → List (Leaf V)
  yielded go (none, c) = []
  yielded go (some l, c) = l ∷ go c

  -- Every yield of one end, up to the first time that it yields nothing.
  unfoldable pub drain : ℕ → Slot V → Dir → Cursor V → List (Leaf V)
  unfolding advance
  drain zero root d c = []
  drain (suc fuel) root d c = yielded (drain fuel root d) (advance root d c)

  abbrev pub up_to : (Key → Bool) → List (Leaf V) → List (Leaf V)
  up_to far [] = []
  up_to far (l ∷ ls) = if far l.key then l ∷ up_to far ls else []

  up_to_cong :
      (f g : Key → Bool) (ls : List (Leaf V)) → ((k : Key) → f k ≡ g k) → up_to f ls ≡ up_to g ls
  up_to_cong f g [] h = refl
  up_to_cong f g (l ∷ ls) h = rw (h l.key, up_to_cong f g ls h) refl

  drained :
      (fuel : ℕ) (root : Slot V) (d : Dir) (c : Cursor V) (ls : List (Leaf V))
      (r : Option (Leaf V) × Cursor V)
      → Yields d c ls r
      → ((c' : Cursor V) (ls' : List (Leaf V))
          → Scans d c' ls'
          → length ls' < length ls
          → drain fuel root d c' ≡ up_to (inside d c') ls')
      → yielded (drain fuel root d) r ≡ up_to (inside d c) ls
  drained fuel root d c [] (o, c') y ih = ap (λ t. yielded (drain fuel root d) (t, c')) y.0
  drained fuel root d c (l ∷ ls) (o, c') (inl (out, e)) ih =
      rw out (ap (λ t. yielded (drain fuel root d) (t, c')) e)
  drained fuel root d c (l ∷ ls) (o, c') (inr (within, e, w, same)) ih = rw within (
      ap (λ t. yielded (drain fuel root d) (t, c')) e
      ∙ ap (λ t. l ∷ t) (ih c' ls w (omega arith) ∙ up_to_cong (inside d c') (inside d c) ls same))

  drain-Scans :
      (fuel : ℕ) (root : Slot V) (d : Dir) (c : Cursor V) (ls : List (Leaf V))
      → Scans d c ls
      → length ls < fuel
      → drain fuel root d c ≡ up_to (inside d c) ls
  unfolding drain
  drain-Scans zero root d c ls w lt = absurd (omega arith)
  drain-Scans (suc fuel) root d c ls w lt =
      drained fuel root d c ls (advance root d c) (advance-Yields root d c ls w)
        (λ c' ls' w' lt'. drain-Scans fuel root d c' ls' w' (omega arith))

  -- The scan of a cursor whose first step takes what a side has before it.
  pub drain-take_pending :
      (fuel : ℕ) (root : Slot V) (d : Dir) (c : Cursor V) (side : Side V) (ls : List (Leaf V))
      → c.done ≡ false
      → (other_of d c).last ≡ none
      → advance root d c ≡ take_pending d side c side.pending
      → Holds d (inside d c) side ls
      → length ls < fuel
      → drain fuel root d c ≡ up_to (inside d c) ls
  unfolding drain
  drain-take_pending zero root d c side ls o n e w lt = absurd (omega arith)
  drain-take_pending (suc fuel) root d c side ls o n e w lt =
      drained fuel root d c ls (advance root d c)
        (subst (Yields d c ls) (sym e) (pending_step d c side o n ls side.pending refl w))
        (λ c' ls' w' lt'. drain-Scans fuel root d c' ls' w' (omega arith))
