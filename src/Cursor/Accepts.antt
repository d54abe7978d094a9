-- ===== src/Cursor/Accepts.antt =====
-- The leaves that an end of the cursor has before it, and `accept` of the first of them.
use artmap.Prelude.{
  ◌≡◌, ◌⊎◌, refl, sym, Bool, true, false, inl, inr, Option, none, some, List, [], ◌∷◌, ◌++◌,
  Bool-cases,
}
use mathlib.Core.Path.{subst}
use artmap.Prelude.Bytes.{Key}
use artmap.Tree.{Leaf}
use artmap.Tree.Leaves.{Every}
use artmap.Cursor.{Dir, forward, backward}
use artmap.Cursor.Turns.{remaining, AllSane}
use artmap.Cursor.Sides.{
  Side, Cursor, Resume, remember, side_of, other_of, with_side, inside, crossed_at, accept, last_of,
}

module _ {ℓ} {V : Type ℓ} where
  abbrev pub pend : Option (Leaf V) → List (Leaf V)
  pend none = []
  pend (some l) = l ∷ []

  -- the leaves that an end has before it
  abbrev pub available : Dir → Side V → List (Leaf V)
  available d side = pend side.pending ++ (side.left ++ remaining d side.stack)

  -- A test that no leaf passes behind one that fails it.
  abbrev pub Closed : (Key → Bool) → List (Leaf V) → Type 0
  Closed far [] = Unit
  Closed far (l ∷ ls) = Every (λ m. far m.key ≡ true → far l.key ≡ true) ls × Closed far ls

  pub record Holds (d : Dir) (far : Key → Bool) (side : Side V) (ls : List (Leaf V)) : Type ℓ where
    pub placed : side.positioned ≡ true
    pub sane : AllSane side.stack
    pub avail : available d side ≡ ls
    pub range : side.batch_in_range ≡ true → Every (λ l. far l.key ≡ true) side.left
    pub closed : Closed far ls

  -- The state of a scan in one direction.
  abbrev pub Scans : Dir → Cursor V → List (Leaf V) → Type ℓ
  Scans d c ls =
      Holds d (inside d c) (side_of d c) ls × (c.done ≡ false) × ((other_of d c).last ≡ none)

  -- What a scan must yield next, and the state that it must leave.
  abbrev pub Yields : Dir → Cursor V → List (Leaf V) → Option (Leaf V) × Cursor V → Type ℓ
  Yields d c [] r = (r.0 ≡ none) × (r.0 ≡ none)
  Yields d c (l ∷ ls) r =
      ((inside d c l.key ≡ false) × (r.0 ≡ none))
      ⊎ ((inside d c l.key ≡ true)
          × (r.0 ≡ some l)
          × Scans d r.1 ls
          × ((k : Key) → inside d r.1 k ≡ inside d c k))

  pub with_side-Scans :
      (d : Dir) (c : Cursor V) (side : Side V) (ls : List (Leaf V))
      → Holds d (inside d c) side ls
      → c.done ≡ false
      → (other_of d c).last ≡ none
      → Scans d (with_side d side c) ls
        × ((k : Key) → inside d (with_side d side c) k ≡ inside d c k)
  unfolding inside
  with_side-Scans forward c side ls h o n = ((h, o, n), λ k. refl)
  with_side-Scans backward c side ls h o n = ((h, o, n), λ k. refl)

  crossed_at-none :
      (d : Dir) (k : Key) (o : Option (Resume V)) → o ≡ none → crossed_at d k o ≡ false
  unfolding crossed_at
  crossed_at-none d k o e =
      subst (λ t. crossed_at d k t ≡ false) (sym e) (unfold crossed_at in refl)

  pub remember-Holds :
      (d : Dir) (far : Key → Bool) (l : Leaf V) (side : Side V) (ls : List (Leaf V))
      → Holds d far side ls
      → Holds d far (remember l side) ls
  unfolding remember
  remember-Holds d far l side ls h = record {
    placed = h.placed;
    sane = h.sane;
    avail = h.avail;
    range = h.range;
    closed = h.closed;
  }

  -- A leaf is accepted just if it is inside the far bound.
  pub accept-Yields :
      (d : Dir) (c : Cursor V) (l : Leaf V) (side : Side V) (ls : List (Leaf V))
      → Holds d (inside d c) side ls
      → c.done ≡ false
      → (other_of d c).last ≡ none
      → Yields d c (l ∷ ls) (accept d l side c)
  unfolding accept
  accept-Yields d c l side ls h o n = elim (Bool-cases (inside d c l.key)) [
    | inr out ↦ inl (out, rw out refl)
    | inl within ↦
        let e : accept d l side c ≡ (some l, with_side d (remember l side) c) =
          rw (within, crossed_at-none d l.key (other_of d c).last n) refl in
        let w =
          with_side-Scans d c (remember l side) ls (remember-Holds d (inside d c) l side ls h) o
            n in
        subst (Yields d c (l ∷ ls)) (sym e) (inr (within, refl, w.0, w.1))
  ]

  -- If the last leaf of a batch is inside the far bound, all of them are.
  pub last-inside :
      (far : Key → Bool) (l : Leaf V) (ls r : List (Leaf V))
      → Closed far (l ∷ (ls ++ r))
      → far (last_of l ls).key ≡ true
      → Every (λ m. far m.key ≡ true) (l ∷ ls)
  last-inside far l [] r c h = (h, tt)
  last-inside far l (m ∷ ls) r c h = let q = last-inside far m ls r c.1 h in (c.0.0 q.0, q)
