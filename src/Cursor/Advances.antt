-- ===== src/Cursor/Advances.antt =====
-- What `advance` yields, on its fast and on its slow path.
use artmap.Prelude.{
  suc, ◌≡◌, refl, ap, sym, ◌∙◌, Bool, true, false, ◌&&◌, not, inl, inr, Option, none, some, List,
  [], ◌∷◌, ◌++◌, if◌then◌else◌, Bool-cases, arith,
}
use mathlib.Core.Path.{subst}
use mathlib.Core.Bool.{false≢true}
use artmap.Tree.{Leaf, Slot}
use artmap.Tree.Leaves.{Every}
use artmap.Cursor.{Dir, Turn, at_end, again, one_leaf, batch}
use artmap.Cursor.Turns.{remaining}
use artmap.Cursor.Work.{work}
use artmap.Cursor.Loop.{Turned, IsFinal, steps-Concludes}
use artmap.Cursor.Sides.{
  Side, Cursor, remember, side_of, other_of, with_side, step_of, step_left, step, inside, accept,
  last_of, stepped, take_pending, position, advance_slow, advance_left, advance, is_none, near,
  seek,
}
use artmap.Cursor.Accepts.{
  pend, Closed, Holds, Scans, Yields, with_side-Scans, remember-Holds, accept-Yields, last-inside,
}

is_none-none {ℓ} : {A : Type ℓ} (m : Option A) → is_none m ≡ true → m ≡ none
is_none-none none h = refl
is_none-none (some a) h = absurd (false≢true h)

tested : (a b i j k : Bool) → (a && b && i && j && k) ≡ true → (a ≡ true) × (i ≡ true)
tested a b i j k h = ground arith

module _ {ℓ} {V : Type ℓ} where
  module _ (d : Dir) (c : Cursor V) (side : Side V) (o : c.done ≡ false)
      (n : (other_of d c).last ≡ none) where
    -- Without a pending leaf, an end has its batch and its stack before it.
    held :
        (ls ms : List (Leaf V))
        → side.pending ≡ none
        → side.left ≡ ms
        → Holds d (inside d c) side ls
        → ms ++ remaining d side.stack ≡ ls
    held ls ms p q h =
        sym (ap (λ t. t ++ remaining d side.stack) q)
        ∙ ap (λ t. pend t ++ (side.left ++ remaining d side.stack)) (sym p)
        ∙ h.avail

    final_turn :
        (ls : List (Leaf V)) (t : Turn V)
        → side.pending ≡ none
        → side.left ≡ []
        → Holds d (inside d c) side ls
        → IsFinal t
        → Turned d side.stack t
        → Yields d c ls (stepped d c (step_of side (some t)))
    unfolding stepped
    final_turn ls at_end p q h f g =
        let e : [] ≡ ls = sym g ∙ held ls [] p q h in
        subst
          (λ t.
            Yields d c t
              (none, record (with_side d (record side { stack = [] }) c) { done = true }))
          e (refl, refl)
    final_turn ls (again st) p q h f g = absurd f
    final_turn ls (one_leaf l st) p q h f g =
        let e : l ∷ remaining d st ≡ ls = sym g.1 ∙ held ls [] p q h in
        let k = subst (Closed (inside d c)) (sym e) h.closed in
        subst (λ t. Yields d c t (accept d l (record side { stack = st }) c)) e
          (accept-Yields d c l (record side { stack = st }) (remaining d st)
            (record {
              placed = h.placed;
              sane = g.0;
              avail =
                  ap (λ t. pend t ++ (side.left ++ remaining d st)) p
                  ∙ ap (λ t. t ++ remaining d st) q;
              range = h.range;
              closed = k.1;
            })
            o n)
    final_turn ls (batch l ms st) p q h f g =
        let e : l ∷ (ms ++ remaining d st) ≡ ls = sym g.1 ∙ held ls [] p q h in
        let k = subst (Closed (inside d c)) (sym e) h.closed in
        let s' = record side {
          stack = st;
          left = ms;
          batch_in_range = inside d c (last_of l ms).key;
        } in
        subst (λ t. Yields d c t (accept d l s' c)) e
          (accept-Yields d c l s' (ms ++ remaining d st)
            (record {
              placed = h.placed;
              sane = g.0;
              avail = ap (λ t. pend t ++ (ms ++ remaining d st)) p;
              range = λ b. (last-inside (inside d c) l ms (remaining d st) k b).1;
              closed = k.1;
            })
            o n)

    left_step :
        (ls ms : List (Leaf V))
        → side.pending ≡ none
        → side.left ≡ ms
        → Holds d (inside d c) side ls
        → Yields d c ls (stepped d c (step_left d side ms))
    unfolding stepped step_left
    left_step ls [] p q h =
        let (t, e, f, g) =
          steps-Concludes (suc (work d side.stack)) d side.stack h.sane (omega arith) in
        subst (λ x. Yields d c ls (stepped d c (step_of side x))) (sym e)
          (final_turn ls t p q h f g)
    left_step ls (l ∷ ms) p q h =
        let e : l ∷ (ms ++ remaining d side.stack) ≡ ls = held ls (l ∷ ms) p q h in
        let k = subst (Closed (inside d c)) (sym e) h.closed in
        subst (λ t. Yields d c t (accept d l (record side { left = ms }) c)) e
          (accept-Yields d c l (record side { left = ms }) (ms ++ remaining d side.stack)
            (record {
              placed = h.placed;
              sane = h.sane;
              avail = ap (λ t. pend t ++ (ms ++ remaining d side.stack)) p;
              range = λ b. (subst (Every (λ m. inside d c m.key ≡ true)) q (h.range b)).1;
              closed = k.1;
            })
            o n)

    pub pending_step :
        (ls : List (Leaf V)) (m : Option (Leaf V))
        → side.pending ≡ m
        → Holds d (inside d c) side ls
        → Yields d c ls (take_pending d side c m)
    unfolding take_pending step
    pending_step ls none p h = left_step ls side.left p refl h
    pending_step ls (some l) p h =
        let e : l ∷ (side.left ++ remaining d side.stack) ≡ ls =
          ap (λ t. pend t ++ (side.left ++ remaining d side.stack)) (sym p) ∙ h.avail in
        let k = subst (Closed (inside d c)) (sym e) h.closed in
        subst (λ t. Yields d c t (accept d l (record side { pending = none }) c)) e
          (accept-Yields d c l (record side { pending = none })
            (side.left ++ remaining d side.stack)
            (record {
              placed = h.placed;
              sane = h.sane;
              avail = refl;
              range = h.range;
              closed = k.1;
            })
            o n)

  advance_slow-placed :
      (root : Slot V) (d : Dir) (c : Cursor V)
      → c.done ≡ false
      → (side_of d c).positioned ≡ true
      → advance_slow root d c ≡ take_pending d (side_of d c) c (side_of d c).pending
  unfolding advance_slow position
  advance_slow-placed root d c o p =
      let s = side_of d c in
      let q = position root d c s in
      ap (λ t. if t then (none, c) else take_pending d q c q.pending) o
      ∙ ap
          (λ t.
            let x =
              if t then s else record (seek root s (near d c s.last) d) { positioned = true } in
            take_pending d x c x.pending)
          p

  slow-Yields :
      (root : Slot V) (d : Dir) (c : Cursor V) (ls : List (Leaf V))
      → Scans d c ls
      → Yields d c ls (advance_slow root d c)
  slow-Yields root d c ls (h, o, n) =
      subst (Yields d c ls) (sym (advance_slow-placed root d c o h.placed))
        (pending_step d c (side_of d c) o n ls (side_of d c).pending refl h)

  -- The leaf that the fast path yields.
  fast_step :
      (d : Dir) (c : Cursor V) (ls : List (Leaf V)) (l : Leaf V) (ms : List (Leaf V))
      → (side_of d c).left ≡ l ∷ ms
      → (side_of d c).batch_in_range ≡ true
      → (side_of d c).pending ≡ none
      → Scans d c ls
      → Yields d c ls (some l, with_side d (remember l (record (side_of d c) { left = ms })) c)
  fast_step d c ls l ms q b p (h, o, n) =
      let s = side_of d c in
      let e : l ∷ (ms ++ remaining d s.stack) ≡ ls =
        sym (ap (λ t. t ++ remaining d s.stack) q)
        ∙ ap (λ t. pend t ++ (s.left ++ remaining d s.stack)) (sym p)
        ∙ h.avail in
      let k = subst (Closed (inside d c)) (sym e) h.closed in
      let r = subst (Every (λ m. inside d c m.key ≡ true)) q (h.range b) in
      let w =
        with_side-Scans d c (remember l (record s { left = ms })) (ms ++ remaining d s.stack)
          (remember-Holds d (inside d c) l (record s { left = ms }) (ms ++ remaining d s.stack)
            (record {
              placed = h.placed;
              sane = h.sane;
              avail = ap (λ t. pend t ++ (ms ++ remaining d s.stack)) p;
              range = λ t. r.1;
              closed = k.1;
            }))
          o n in
      subst (λ t. Yields d c t (some l, with_side d (remember l (record s { left = ms })) c)) e
        (inr (r.0, refl, w.0, w.1))

  fast-Yields :
      (root : Slot V) (d : Dir) (c : Cursor V) (ls ms : List (Leaf V))
      → (side_of d c).left ≡ ms
      → Scans d c ls
      → Yields d c ls (advance_left root d c (side_of d c) ms)
  unfolding advance_left
  fast-Yields root d c ls [] q w = slow-Yields root d c ls w
  fast-Yields root d c ls (l ∷ ms) q w =
      let s = side_of d c in
      let fast : Option (Leaf V) × Cursor V =
        (some l, with_side d (remember l (record s { left = ms })) c) in
      let test =
        s.batch_in_range
        && is_none (other_of d c).last
        && is_none s.pending
        && s.positioned
        && not c.done in
      elim (Bool-cases test) [
        | inr fails ↦
            subst (Yields d c ls) (sym (ap (λ t. if t then fast else advance_slow root d c) fails))
              (slow-Yields root d c ls w)
        | inl holds ↦
            let r =
              tested s.batch_in_range (is_none (other_of d c).last) (is_none s.pending) s.positioned
                (not c.done) holds in
            subst (Yields d c ls) (sym (ap (λ t. if t then fast else advance_slow root d c) holds))
              (fast_step d c ls l ms q r.0 (is_none-none s.pending r.1) w)
      ]

  -- An end that is placed yields the leaves before it, in order, up to the far bound.
  pub advance-Yields :
      (root : Slot V) (d : Dir) (c : Cursor V) (ls : List (Leaf V))
      → Scans d c ls
      → Yields d c ls (advance root d c)
  unfolding advance
  advance-Yields root d c ls w = fast-Yields root d c ls (side_of d c).left refl w
