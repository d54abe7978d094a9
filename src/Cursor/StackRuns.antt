-- ===== src/Cursor/StackRuns.antt =====
-- The stack of a cursor against a list: the inline slots hold the lower frames, the vector the rest.
use artmap.Prelude.{
  ℕ, zero, suc, ◌+◌, ◌≤◌, ◌<◌, ◌≡◌, ◌⊎◌, refl, ap, sym, ◌∙◌, true, false, inl, inr, Option, none,
  some, List, [], ◌∷◌, ◌++◌, length, ltb, leb, le→leb, ltb→lt, lt→ltb, if◌then◌else◌, Bool-cases,
  arith,
}
use mathlib.Core.Path.{subst}
use mathlib.Core.List.{nil≢cons}
use artmap.Cursor.Stack.{
  Stack, Op, push_op, pop_op, set_op, clear_op, slot_at, set_at, first, set_first, new_stack, clear,
  push, popped, pop, top_at, top, set_top_at, set_top, run, run_popped, run_list,
}

le→ltb-false : (a b : ℕ) → a ≤ b → ltb b a ≡ false
le→ltb-false a b h = ground arith

lt→leb-false : (a b : ℕ) → a < b → leb b a ≡ false
lt→leb-false a b h = ground arith

module _ {ℓ} {A : Type ℓ} where
  -- The lowest frames are in the slots from the bottom up.
  abbrev Held : List (Option A) → List A → Type ℓ
  Held os [] = os ≡ os
  Held os (y ∷ ys) = (slot_at (length ys) os ≡ some y) × Held os ys

  slot_at-set_at :
      (i : ℕ) (a : A) (os : List (Option A)) → i < length os → slot_at i (set_at i a os) ≡ some a
  slot_at-set_at i a [] h = absurd (omega arith)
  slot_at-set_at zero a (o ∷ os) h = refl
  slot_at-set_at (suc i) a (o ∷ os) h = slot_at-set_at i a os (omega arith)

  slot_at-set_at_above :
      (i j : ℕ) (a : A) (os : List (Option A)) → i < j → slot_at i (set_at j a os) ≡ slot_at i os
  slot_at-set_at_above i j a [] h = refl
  slot_at-set_at_above i zero a (o ∷ os) h = absurd (omega arith)
  slot_at-set_at_above zero (suc j) a (o ∷ os) h = refl
  slot_at-set_at_above (suc i) (suc j) a (o ∷ os) h = slot_at-set_at_above i j a os (omega arith)

  length-set_at : (i : ℕ) (a : A) (os : List (Option A)) → length (set_at i a os) ≡ length os
  length-set_at i a [] = refl
  length-set_at zero a (o ∷ os) = refl
  length-set_at (suc i) a (o ∷ os) = ap suc (length-set_at i a os)

  set_at-Held :
      (j : ℕ) (a : A) (os : List (Option A)) (ys : List A)
      → length ys ≤ j
      → Held os ys
      → Held (set_at j a os) ys
  set_at-Held j a os [] h g = refl
  set_at-Held j a os (y ∷ ys) h g = (
    slot_at-set_at_above (length ys) j a os (omega arith) ∙ g.0,
    set_at-Held j a os ys (omega arith) g.1,
  )

  -- The vector holds `sp`, the slots `ys`, and the vector is used only when the slots are full.
  abbrev Parts : List (Option A) → ℕ → List A → List A → Type ℓ
  Parts os n sp ys =
      (n ≡ length sp + length ys)
      × Held os ys
      × (length os ≡ 12)
      × (length ys ≤ 12)
      × ((length ys ≡ 12) ⊎ (sp ≡ []))

  -- A stack that stands for a list.
  abbrev Represents : Stack A → List A → Type ℓ
  Represents s xs = (ys : List A) × (xs ≡ s.spill ++ ys) × Parts s.inline s.len s.spill ys

  of_Parts :
      (os : List (Option A)) (n : ℕ) (sp ys : List A)
      → Parts os n sp ys
      → Represents (record { inline = os; len = n; spill = sp }) (sp ++ ys)
  of_Parts os n sp ys p = (ys, refl, p)

  -- The vector is in use exactly when there are more frames than slots.
  spilled :
      (n : ℕ) (x : A) (sp ys : List A)
      → n ≡ length (x ∷ sp) + length ys
      → (length ys ≡ 12) ⊎ (x ∷ sp ≡ [])
      → 12 < n
  spilled n x sp ys c (inl e) = omega arith
  spilled n x sp ys c (inr e) = absurd (nil≢cons (sym e))

  filled : (x : A) (sp ys : List A) → (length ys ≡ 12) ⊎ (x ∷ sp ≡ []) → length ys ≡ 12
  filled x sp ys (inl e) = e
  filled x sp ys (inr e) = absurd (nil≢cons (sym e))

  -- A pop: nothing for an empty list, and else the stack that stands for the rest.
  abbrev Popped : Option (Stack A) → List A → Type ℓ
  Popped o xs =
      ((o ≡ none) × (xs ≡ []))
      ⊎ ((x : A) × (xs' : List A) × (s : Stack A) × (xs ≡ x ∷ xs')
          × (o ≡ some s)
          × Represents s xs')

  top_at-first :
      (os : List (Option A)) (m n : ℕ) (sp ys : List A)
      → Parts os n sp ys
      → top_at (record { inline = os; len = m; spill = sp }) n ≡ first (sp ++ ys)
  top_at-first os m zero [] [] p = refl
  top_at-first os m zero [] (y ∷ ys) p = absurd (omega (arith, p.0))
  top_at-first os m zero (x ∷ sp) ys p = absurd (omega (arith, p.0))
  top_at-first os m (suc n) [] [] p = absurd (omega (arith, p.0))
  top_at-first os m (suc n) [] (y ∷ ys) (c, h, l, f, u) =
      let e : n ≡ length ys = omega arith in
      rw (le→leb (suc n) 12 (omega arith)) (ap (λ i. slot_at i os) e ∙ h.0)
  top_at-first os m (suc n) (x ∷ sp) ys (c, h, l, f, u) =
      rw (lt→leb-false 12 (suc n) (spilled (suc n) x sp ys c u)) refl

  top-first : (s : Stack A) (xs : List A) → Represents s xs → top s ≡ first xs
  unfolding top
  top-first s xs (ys, e, p) = top_at-first s.inline s.len s.len s.spill ys p ∙ sym (ap first e)

  new_stack-Represents : Represents new_stack []
  unfolding new_stack
  new_stack-Represents = ([], refl, (refl, refl, refl, omega arith, inr refl))

  clear-Represents : (s : Stack A) (xs : List A) → Represents s xs → Represents (clear s) []
  unfolding clear
  clear-Represents s xs (ys, e, (c, h, l, f, u)) =
      ([], refl, (refl, refl, l, omega arith, inr refl))

  push-Represents :
      (a : A) (s : Stack A) (xs : List A) → Represents s xs → Represents (push a s) (a ∷ xs)
  unfolding push
  push-Represents a s xs (ys, e, (c, h, l, f, u)) =
      let low = record s { inline = set_at s.len a s.inline; len = suc s.len } in
      let high = record s { spill = a ∷ s.spill; len = suc s.len } in
      elim (Bool-cases (ltb s.len 12)) [
        | inl lt ↦
            subst (λ t. Represents (if t then low else high) (a ∷ xs)) (sym lt) (in_slot lt u)
        | inr ge ↦
            subst (λ t. Represents (if t then low else high) (a ∷ xs)) (sym ge)
              (ys, ap (λ t. a ∷ t) e, (omega (arith, c), h, l, f, in_vector ge u))
      ]
    where
      in_vector :
          ltb s.len 12 ≡ false
          → (length ys ≡ 12) ⊎ (s.spill ≡ [])
          → (length ys ≡ 12) ⊎ (a ∷ s.spill ≡ [])
      in_vector ge (inl q) = inl q
      in_vector ge (inr q) = inl (ground (arith, c, f, ap length q, ge))

      in_slot :
          ltb s.len 12 ≡ true
          → (length ys ≡ 12) ⊎ (s.spill ≡ [])
          → Represents (record s { inline = set_at s.len a s.inline; len = suc s.len }) (a ∷ xs)
      in_slot lt (inl q) = absurd (omega (arith, ltb→lt s.len 12 lt, c, q))
      in_slot lt (inr q) =
          let n : s.len ≡ length ys = omega (arith, c, ap length q) in
          let k : s.len < 12 = ltb→lt s.len 12 lt in
          (
            a ∷ ys,
            ap (λ t. a ∷ t) (e ∙ ap (λ t. t ++ ys) q) ∙ ap (λ t. t ++ (a ∷ ys)) (sym q),
            (
              omega (arith, n, ap length q),
              (
                ap (λ i. slot_at i (set_at s.len a s.inline)) (sym n)
                    ∙ slot_at-set_at s.len a s.inline (omega (arith, k, l)),
                set_at-Held s.len a s.inline ys (omega (arith, n)) h,
              ),
              length-set_at s.len a s.inline ∙ l,
              omega (arith, n, k),
              inr q,
            ),
          )

  popped-Represents :
      (os : List (Option A)) (m n : ℕ) (sp ys : List A)
      → Parts os n sp ys
      → Popped (popped (record { inline = os; len = m; spill = sp }) n) (sp ++ ys)
  popped-Represents os m zero [] [] p = inl (refl, refl)
  popped-Represents os m zero [] (y ∷ ys) p = absurd (omega (arith, p.0))
  popped-Represents os m zero (x ∷ sp) ys p = absurd (omega (arith, p.0))
  popped-Represents os m (suc n) [] [] p = absurd (omega (arith, p.0))
  popped-Represents os m (suc n) [] (y ∷ ys) (c, h, l, f, u) =
      rw (le→ltb-false (suc n) 12 (omega arith)) (
        inr (
          y,
          ys,
          record { inline = os; len = n; spill = [] },
          refl,
          refl,
          of_Parts os n [] ys (omega arith, h.1, l, omega arith, inr refl),
        ))
  popped-Represents os m (suc n) (x ∷ sp) ys (c, h, l, f, u) =
      let k = spilled (suc n) x sp ys c u in
      rw (lt→ltb 12 (suc n) k) (
        inr (
          x,
          sp ++ ys,
          record { inline = os; len = n; spill = sp },
          refl,
          refl,
          of_Parts os n sp ys (omega arith, h, l, f, inl (filled x sp ys u)),
        ))

  set_top_at-Represents :
      (a : A) (os : List (Option A)) (n : ℕ) (sp ys : List A)
      → Parts os n sp ys
      → Represents
          (set_top_at a (record { inline = os; len = n; spill = sp }) n)
          (set_first a (sp ++ ys))
  set_top_at-Represents a os zero [] [] p = of_Parts os 0 [] [] p
  set_top_at-Represents a os zero [] (y ∷ ys) p = absurd (omega (arith, p.0))
  set_top_at-Represents a os zero (x ∷ sp) ys p = absurd (omega (arith, p.0))
  set_top_at-Represents a os (suc n) [] [] p = absurd (omega (arith, p.0))
  set_top_at-Represents a os (suc n) [] (y ∷ ys) (c, h, l, f, u) =
      let e : length ys ≡ n = omega arith in
      rw (le→leb (suc n) 12 (omega arith)) (
        of_Parts (set_at n a os) (suc n) [] (a ∷ ys) (
          c,
          (
            ap (λ i. slot_at i (set_at n a os)) e ∙ slot_at-set_at n a os (omega arith),
            set_at-Held n a os ys (omega arith) h.1,
          ),
          length-set_at n a os ∙ l,
          f,
          inr refl,
        ))
  set_top_at-Represents a os (suc n) (x ∷ sp) ys (c, h, l, f, u) =
      let k = spilled (suc n) x sp ys c u in
      rw (lt→leb-false 12 (suc n) k)
        (of_Parts os (suc n) (a ∷ sp) ys (c, h, l, f, inl (filled x sp ys u)))

  pop-Popped : (s : Stack A) (xs : List A) → Represents s xs → Popped (pop s) xs
  unfolding pop
  pop-Popped s xs (ys, e, p) =
      subst (Popped (popped s s.len)) (sym e) (popped-Represents s.inline s.len s.len s.spill ys p)

  set_top-Represents :
      (a : A) (s : Stack A) (xs : List A)
      → Represents s xs
      → Represents (set_top a s) (set_first a xs)
  unfolding set_top
  set_top-Represents a s xs (ys, e, p) =
      subst (λ t. Represents (set_top_at a s s.len) (set_first a t)) (sym e)
        (set_top_at-Represents a s.inline s.len s.spill ys p)

  -- Whether there is a stack, and its top.
  abbrev pub tops : Option (Stack A) → Option (Option A)
  tops none = none
  tops (some s) = some (top s)

  abbrev pub firsts : Option (List A) → Option (Option A)
  firsts none = none
  firsts (some xs) = some (first xs)

  run-Represents :
      (ops : List (Op A)) (s : Stack A) (xs : List A)
      → Represents s xs
      → tops (run ops s) ≡ firsts (run_list ops xs)
  unfolding run run_list
  run-Represents [] s xs r = ap some (top-first s xs r)
  run-Represents (push_op a ∷ ops) s xs r =
      run-Represents ops (push a s) (a ∷ xs) (push-Represents a s xs r)
  run-Represents (set_op a ∷ ops) s xs r =
      run-Represents ops (set_top a s) (set_first a xs) (set_top-Represents a s xs r)
  run-Represents (clear_op ∷ ops) s xs r = run-Represents ops (clear s) [] (clear-Represents s xs r)
  run-Represents (pop_op ∷ ops) s xs r = elim (pop-Popped s xs r) [
    | inl (p, e) ↦
        ap (λ o. tops (run_popped (run ops) o)) p
        ∙ ap (λ t. firsts (run_list (pop_op ∷ ops) t)) (sym e)
    | inr (x, xs', s', e, p, r') ↦
        ap (λ o. tops (run_popped (run ops) o)) p
        ∙ run-Represents ops s' xs' r'
        ∙ ap (λ t. firsts (run_list (pop_op ∷ ops) t)) (sym e)
  ]

  -- Any run of pushes, pops, clears and writes to the top, from a new stack, has a result exactly
  -- when the same run on an empty list has one, and then the top of the stack is the head of the
  -- list.
  pub run-run_list : (ops : List (Op A)) → tops (run ops new_stack) ≡ firsts (run_list ops [])
  run-run_list ops = run-Represents ops new_stack [] new_stack-Represents
