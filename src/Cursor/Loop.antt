-- ===== src/Cursor/Loop.antt =====
-- A turn of the loop of `step`, and all its turns.
use artmap.Prelude.{
  ℕ, zero, suc, ◌≤◌, ◌<◌, ◌≡◌, refl, ap, sym, ◌∙◌, Bool, true, false, Option, none, some, List, [],
  ◌∷◌, ◌++◌, arith,
}
use mathlib.Core.Bool.{false≢true}
use mathlib.Core.List.{append_assoc, nil≢cons}
use artmap.Prelude.Ints.{ℤ, pos, negsuc}
use artmap.Tree.{Leaf, Slot, inner, Node, exact_leaf, entries}
use artmap.Tree.Leaves.{node_leaves}
use artmap.Cursor.{
  Dir, forward, backward, Frame, Gathered, exhausted, descend, batch_of, gather, Turn, at_end,
  again, one_leaf, batch, turn, turn_exact, turn_exhausted, turn_children, turned, steps, exact_now,
}
use artmap.Cursor.Ahead.{ahead}
use artmap.Cursor.Turns.{
  directed, runs, exact_list, joined, frame_exact, remaining, Sane, AllSane, Sane-parts, Gathers,
  gather-Gathers,
}
use artmap.Cursor.Work.{due, sizes, work, edge-work, edge-leaves}

module _ {ℓ} {V : Type ℓ} where
  -- What a turn does to the leaves that remain.
  abbrev pub Turned : Dir → List (Frame V) → Turn V → Type ℓ
  Turned d st at_end = remaining d st ≡ []
  Turned d st (again st') =
      AllSane st' × (remaining d st ≡ remaining d st') × (work d st' < work d st)
  Turned d st (one_leaf l st') = AllSane st' × (remaining d st ≡ l ∷ remaining d st')
  Turned d st (batch l ls st') = AllSane st' × (remaining d st ≡ l ∷ ls ++ remaining d st')

  abbrev pub Ready : Dir → List (Leaf V) → Type ℓ
  Ready forward e = e ≡ []
  Ready backward e = e ≡ e

  joined_split :
      (d : Dir) (e a b : List (Leaf V)) → Ready d e → joined d e (a ++ b) ≡ a ++ joined d e b
  joined_split forward e a b r = ap (λ t. t ++ (a ++ b)) r ∙ ap (λ t. a ++ (t ++ b)) (sym r)
  joined_split backward e a b r = append_assoc a b e

  -- A gathered part comes before the rest of its frame and the frames below.
  pub ahead_split :
      (d : Dir) (e a b r : List (Leaf V)) {c : List (Leaf V)}
      → Ready d e
      → c ≡ a ++ b
      → joined d e c ++ r ≡ a ++ (joined d e b ++ r)
  ahead_split d e a b r {c} q h =
      ap (λ t. joined d e t ++ r) h
      ∙ ap (λ t. t ++ r) (joined_split d e a b q)
      ∙ append_assoc a (joined d e b) r

  abbrev frame_at : Node V → ℤ → Bool → Frame V
  frame_at n next e = record { at = n; next = next; exact = e }

  module _ (n : Node V) (st : List (Frame V)) (w : Sane n) (a : AllSane st) where
    exact_first :
        (next : ℤ) (o : Option (Leaf V))
        → exact_leaf n ≡ o
        → Turned forward (frame_at n next true ∷ st) (turn_exact o (frame_at n next false ∷ st))
    unfolding turn_exact
    exact_first next none h = (
      (w, a),
      ap
          (λ t.
            (exact_list t ++ runs forward (ahead forward next (entries n))) ++ remaining forward st)
          h,
      omega arith,
    )
    exact_first next (some l) h = (
      (w, a),
      ap
          (λ t.
            (exact_list t ++ runs forward (ahead forward next (entries n))) ++ remaining forward st)
          h,
    )

    exact_last :
        (k : ℕ) (o : Option (Leaf V))
        → exact_leaf n ≡ o
        → Turned backward
            (frame_at n (negsuc k) true ∷ st)
            (turn_exact o (frame_at n (negsuc k) false ∷ st))
    unfolding turn_exact
    exact_last k none h = ((w, a), ap (λ t. exact_list t ++ remaining backward st) h, omega arith)
    exact_last k (some l) h = ((w, a), ap (λ t. exact_list t ++ remaining backward st) h)

    -- The children are over: the frame is popped, or its exact leaf is due.
    exhausted_turn :
        (d : Dir) (next : ℤ) (e : Bool)
        → exact_now d (frame_at n next e) ≡ false
        → runs d (ahead d next (entries n)) ≡ []
        → Turned d (frame_at n next e ∷ st) (turn_exhausted d (frame_at n next e) st)
    unfolding turn_exhausted
    exhausted_turn forward next true h g = absurd (false≢true (sym h))
    exhausted_turn forward next false h g = (a, ap (λ t. t ++ remaining forward st) g, omega arith)
    exhausted_turn backward next false h g =
        (a, ap (λ t. (t ++ []) ++ remaining backward st) g, omega arith)
    exhausted_turn backward (negsuc k) true h g = absurd (false≢true (sym h))
    exhausted_turn backward (pos k) true h g =
        ((w, a), ap (λ t. (t ++ exact_list (exact_leaf n)) ++ remaining backward st) g, omega arith)

    ready :
        (d : Dir) (next : ℤ) (e : Bool)
        → exact_now d (frame_at n next e) ≡ false
        → Ready d (frame_exact (frame_at n next e))
    ready forward next true h = absurd (false≢true (sym h))
    ready forward next false h = refl
    ready backward next e h = refl

    due_before :
        (d : Dir) (next next' : ℤ) (b : ℕ) (c : Slot V)
        → ahead d next (entries n) ≡ (b, c) ∷ ahead d next' (entries n)
        → due d next' ≤ due d next
    due_before forward next next' b c h = omega arith
    due_before backward (pos k) (pos j) b c h = omega arith
    due_before backward (pos k) (negsuc j) b c h = omega arith
    due_before backward (negsuc k) next' b c h = absurd (nil≢cons h)

    gathered_turn :
        (d : Dir) (next : ℤ) (e : Bool) (g : Gathered V)
        → exact_now d (frame_at n next e) ≡ false
        → Gathers d (entries n) (Sane-parts n w).0 (Sane-parts n w).1 next g
        → Turned d (frame_at n next e ∷ st) (turn_children d (frame_at n next e) st g)
    unfolding turn_children
    gathered_turn d next e exhausted h g = exhausted_turn d next e h g
    gathered_turn d next e (batch_of l ls next') h g = (
      (w, a),
      ahead_split d (frame_exact (frame_at n next e)) (l ∷ ls) (runs d (ahead d next' (entries n)))
          (remaining d st) (ready d next e h) g,
    )
    gathered_turn d next e (descend c next') h (wc, (b, g)) = (
      (wc, (w, a)),
      ahead_split d (frame_exact (frame_at n next e)) (directed d (node_leaves c))
            (runs d (ahead d next' (entries n))) (remaining d st) (ready d next e h) (ap (runs d) g)
          ∙ ap
              (λ t.
                t
                ++ (joined d (frame_exact (frame_at n next e)) (runs d (ahead d next' (entries n)))
                    ++ remaining d st))
              (sym (edge-leaves d c wc)),
      omega (arith, edge-work d c, ap sizes g, due_before d next next' b (inner c) g),
    )

    later_turn :
        (d : Dir) (next : ℤ) (e : Bool)
        → exact_now d (frame_at n next e) ≡ false
        → Turned d
            (frame_at n next e ∷ st)
            (turn_children d (frame_at n next e) st (gather d (entries n) next))
    later_turn d next e h =
        gathered_turn d next e (gather d (entries n) next) h (
          gather-Gathers d (entries n) (Sane-parts n w).0 (Sane-parts n w).1 next
            (Sane-parts n w).2)

    frame_turn :
        (d : Dir) (next : ℤ) (e : Bool)
        → Turned d (frame_at n next e ∷ st) (turn d (frame_at n next e ∷ st))
    unfolding turn
    frame_turn forward next true = exact_first next (exact_leaf n) refl
    frame_turn forward next false = later_turn forward next false refl
    frame_turn backward (negsuc k) true = exact_last k (exact_leaf n) refl
    frame_turn backward (negsuc k) false = later_turn backward (negsuc k) false refl
    frame_turn backward (pos k) true = later_turn backward (pos k) true refl
    frame_turn backward (pos k) false = later_turn backward (pos k) false refl

  turn-Turned : (d : Dir) (st : List (Frame V)) → AllSane st → Turned d st (turn d st)
  turn-Turned d [] a = unfold turn in refl
  turn-Turned d (f ∷ st) a = frame_turn f.at st a.0 a.1 d f.next f.exact

  abbrev pub IsFinal : Turn V → Type 0
  IsFinal (again st) = ⊥
  IsFinal _ = Unit

  -- What the loop comes to: the next leaf or batch of those that remain, or the end.
  abbrev pub Concludes : Dir → List (Frame V) → Option (Turn V) → Type ℓ
  Concludes d st o = (t : Turn V) × (o ≡ some t) × IsFinal t × Turned d st t

  turned-Concludes :
      (go : List (Frame V) → Option (Turn V)) (d : Dir) (st : List (Frame V)) (t : Turn V)
      → Turned d st t
      → ((st' : List (Frame V)) → AllSane st' → work d st' < work d st → Concludes d st' (go st'))
      → Concludes d st (turned go t)
  unfolding turned
  turned-Concludes go d st at_end h ih = (at_end, refl, tt, h)
  turned-Concludes go d st (one_leaf l st') h ih = (one_leaf l st', refl, tt, h)
  turned-Concludes go d st (batch l ls st') h ih = (batch l ls st', refl, tt, h)
  turned-Concludes go d st (again st') h ih =
      let (t, e, f, g) = ih st' h.0 h.2 in (t, e, f, carried t f g)
    where
      carried : (t : Turn V) → IsFinal t → Turned d st' t → Turned d st t
      carried at_end f g = h.1 ∙ g
      carried (one_leaf l r) f g = (g.0, h.1 ∙ g.1)
      carried (batch l ls r) f g = (g.0, h.1 ∙ g.1)
      carried (again r) f g = absurd f

  pub steps-Concludes :
      (fuel : ℕ) (d : Dir) (st : List (Frame V))
      → AllSane st
      → work d st < fuel
      → Concludes d st (steps fuel d st)
  unfolding steps
  steps-Concludes zero d st a lt = absurd (omega arith)
  steps-Concludes (suc fuel) d st a lt =
      turned-Concludes (steps fuel d) d st (turn d st) (turn-Turned d st a)
        (λ st' a' lt'. steps-Concludes fuel d st' a' (omega arith))
