-- ===== src/Arena/Disjoint.antt =====
-- The ranges of an arena: their place, alignment and overlap.
use artmap.Prelude.{
  ℕ, ◌+◌, ◌-◌, ◌*◌, ◌/◌, ◌≤◌, ◌<◌, ◌≡◌, ◌⊎◌, inl, inr, refl, ◌∙◌, Bool, true, false, Option, none,
  some, List, [], ◌∷◌, ◌++◌, ltb, if◌then◌else◌, none≢some, arith,
}
use mathlib.Core.Path.{subst}
use artmap.Arena.{
  arena_align, checked_add, round_down, fit, fit_from, carve, refill, chunk_size, Use, handed,
  chunk, Region, Arena, Step, allocates, claims, takes, abandons, Run, stays, goes, new_arena,
  clamped, max_arena_size,
}

module _ (cur limit align size : ℕ) where
  -- A carved range: aligned, behind `cur` by less than the alignment, of the size, in the limit.
  pub record Carved (start end : ℕ) : Type 0 where
    pub index : ℕ
    pub multiple : start ≡ index * align
    pub behind : cur ≤ start
    pub near : start < cur + align
    pub sized : end ≡ start + size
    pub within : end ≤ limit

checked_add_is : (a b x : ℕ) → checked_add a b ≡ some x → x ≡ a + b
unfolding checked_add
checked_add_is a b x h = ground arith

fit_is :
    (limit s : ℕ) (o : Option ℕ) (start end : ℕ)
    → fit limit s o ≡ some (start, end)
    → (start ≡ s) × (o ≡ some end) × (end ≤ limit)
unfolding fit
fit_is limit s none start end h = absurd (none≢some h)
fit_is limit s (some e) start end h = ground arith

rounded :
    (align x : ℕ)
    → 1 ≤ align
    → (round_down align x ≡ x / align * align) × (x < round_down align x + align)
rounded align x h = omega arith

-- Whatever `carve` returns is a range of the size, in the limit, at the next aligned offset.
pub carve-Carved :
    (cur limit align size : ℕ) {start end : ℕ}
    → 1 ≤ align
    → carve cur limit align size ≡ some (start, end)
    → Carved cur limit align size start end
unfolding carve fit_from
carve-Carved cur limit align size {start} {end} pos h = by_sum (checked_add cur (align - 1)) refl h
  where
    by_sum :
        (o : Option ℕ)
        → checked_add cur (align - 1) ≡ o
        → fit_from limit align size o ≡ some (start, end)
        → Carved cur limit align size start end
    by_sum none e q = absurd (none≢some q)
    by_sum (some x) e q =
        let f =
          fit_is limit (round_down align x) (checked_add (round_down align x) size) start end q in
        let r = rounded align x pos in
        let xe = checked_add_is cur (align - 1) x e in
        let ye = checked_add_is (round_down align x) size end f.1 in
        record {
          index = x / align;
          multiple = f.0 ∙ r.0;
          behind = omega (arith, f.0, r.1, xe);
          near = omega (arith, f.0, xe);
          sized = omega (arith, f.0, ye);
          within = f.2;
        }

abbrev pub Apart : Region → Region → Type 0
Apart a b = (a.end ≤ b.start) ⊎ (b.end ≤ a.start)

abbrev pub Clear : Region → List Region → Type 0
Clear r [] = Unit
Clear r (x ∷ xs) = Apart r x × Clear r xs

-- Every two ranges are apart, and each lies between the null region and the bound.
abbrev pub AllApart : ℕ → List Region → Type 0
AllApart bound [] = Unit
AllApart bound (x ∷ xs) = (arena_align ≤ x.start) × (x.end ≤ bound) × Clear x xs × AllApart bound xs

Clear-above :
    (bound : ℕ) (r : Region) (xs : List Region) → bound ≤ r.start → AllApart bound xs → Clear r xs
Clear-above bound r [] le h = tt
Clear-above bound r (x ∷ xs) le h = (inr (omega (arith, h.1, le)), Clear-above bound r xs le h.3)

AllApart-mono :
    (bound more : ℕ) (xs : List Region) → bound ≤ more → AllApart bound xs → AllApart more xs
AllApart-mono bound more [] le h = tt
AllApart-mono bound more (x ∷ xs) le h =
    (h.0, omega (arith, h.1, le), h.2, AllApart-mono bound more xs le h.3)

-- A region may be cut in two, or dropped, wherever it stands.
module _ (c a b : Region) (first : c.start ≤ a.start) (order : a.end ≤ b.start)
    (last : b.end ≤ c.end) (fits : b.start ≤ b.end) (fits' : a.start ≤ a.end) where
  Clear-cut :
      (r : Region) (before after : List Region)
      → Clear r (before ++ c ∷ after)
      → Clear r (before ++ a ∷ b ∷ after)
  Clear-cut r [] after h = (cut_first h.0, (cut_second h.0, h.1))
    where
      cut_first : Apart r c → Apart r a
      cut_first (inl x) = inl (omega (arith, x, first))
      cut_first (inr x) = inr (omega (arith, x, order, last, fits))

      cut_second : Apart r c → Apart r b
      cut_second (inl x) = inl (omega (arith, x, first, fits', order))
      cut_second (inr x) = inr (omega (arith, x, last))
  Clear-cut r (x ∷ before) after h = (h.0, Clear-cut r before after h.1)

  Clear-of : (xs : List Region) → Clear c xs → Clear a xs × Clear b xs
  Clear-of [] h = (tt, tt)
  Clear-of (x ∷ xs) h = let q = Clear-of xs h.1 in (((parts h.0).0, q.0), ((parts h.0).1, q.1))
    where
      parts : Apart c x → Apart a x × Apart b x
      parts (inl y) = (inl (omega (arith, y, order, fits, last)), inl (omega (arith, y, last)))
      parts (inr y) = (inr (omega (arith, y, first)), inr (omega (arith, y, first, fits', order)))

  AllApart-cut :
      (bound : ℕ) (before after : List Region)
      → AllApart bound (before ++ c ∷ after)
      → AllApart bound (before ++ a ∷ b ∷ after)
  AllApart-cut bound [] after h =
      let q = Clear-of after h.2 in
      (
        omega (arith, h.0, first),
        omega (arith, h.1, last, order, fits),
        (inl order, q.0),
        (omega (arith, h.0, first, fits', order), omega (arith, h.1, last), q.1, h.3),
      )
  AllApart-cut bound (x ∷ before) after h =
      (h.0, h.1, Clear-cut x before after h.2, AllApart-cut bound before after h.3)

Clear-drop :
    (r c : Region) (before after : List Region)
    → Clear r (before ++ c ∷ after)
    → Clear r (before ++ after)
Clear-drop r c [] after h = h.1
Clear-drop r c (x ∷ before) after h = (h.0, Clear-drop r c before after h.1)

AllApart-drop :
    (bound : ℕ) (c : Region) (before after : List Region)
    → AllApart bound (before ++ c ∷ after)
    → AllApart bound (before ++ after)
AllApart-drop bound c [] after h = h.3
AllApart-drop bound c (x ∷ before) after h =
    (h.0, h.1, Clear-drop x c before after h.2, AllApart-drop bound c before after h.3)

refill-carve :
    (capacity cur align size : ℕ) {start end : ℕ}
    → refill capacity cur align size ≡ some (start, end)
    → carve cur capacity arena_align (chunk_size capacity cur) ≡ some (start, end)
unfolding refill
refill-carve capacity cur align size {start} {end} h =
    by_room (ltb (chunk_size capacity cur) (size + align)) h
  where
    by_room :
        (b : Bool)
        → (if b then none else carve cur capacity arena_align (chunk_size capacity cur))
          ≡ some (start, end)
        → carve cur capacity arena_align (chunk_size capacity cur) ≡ some (start, end)
    by_room true q = absurd (none≢some q)
    by_room false q = q

-- The cursor is in bounds, and every region lies apart below it.
abbrev pub Sound : Arena → Type 0
Sound a = (arena_align ≤ a.cursor) × (a.cursor ≤ a.capacity) × AllApart a.cursor a.regions

bump-Sound :
    (a : Arena) (role : Use) (align size : ℕ) {start end : ℕ}
    → Carved a.cursor a.capacity align size start end
    → Sound a
    → Sound (record a {
      cursor = end;
      regions = record { use_as = role; start = start; end = end } ∷ a.regions;
    })
bump-Sound a role align size {start} {end} c s = (
  omega (arith, c.behind, c.sized, s.0),
  c.within,
  (
    omega (arith, c.behind, s.0),
    omega arith,
    Clear-above a.cursor (record { use_as = role; start = start; end = end }) a.regions c.behind
        s.2,
    AllApart-mono a.cursor end a.regions (omega (arith, c.behind, c.sized)) s.2,
  ),
)

Step-Sound : {a b : Arena} → Step a b → Sound a → Sound b
Step-Sound (allocates align size a pos some_size h) s =
    bump-Sound a handed align size (carve-Carved a.cursor a.capacity align size pos h) s
Step-Sound (claims align size a h) s =
    bump-Sound a chunk arena_align (chunk_size a.capacity a.cursor)
      (carve-Carved a.cursor a.capacity arena_align (chunk_size a.capacity a.cursor) (omega arith)
        (refill-carve a.capacity a.cursor align size h))
      s
Step-Sound (takes align size a before after cur limit {start} {end} pos some_size e h) s =
    let c = carve-Carved cur limit align size pos h in
    (
      s.0,
      s.1,
      AllApart-cut (record { use_as = chunk; start = cur; end = limit })
          (record { use_as = handed; start = start; end = end })
          (record { use_as = chunk; start = end; end = limit }) c.behind (omega arith) (omega arith)
          c.within (omega (arith, c.sized)) a.cursor before after (subst (AllApart a.cursor) e s.2),
    )
Step-Sound (abandons a before after cur limit e) s = (
  s.0,
  s.1,
  AllApart-drop a.cursor (record { use_as = chunk; start = cur; end = limit }) before after
      (subst (AllApart a.cursor) e s.2),
)

Run-Sound : {a b : Arena} → Sound a → Run a b → Sound b
Run-Sound s (stays a) = s
Run-Sound s (goes r t) = Step-Sound t (Run-Sound s r)

clamped-bounds :
    (capacity : ℕ) → (arena_align ≤ clamped capacity) × (clamped capacity ≤ max_arena_size)
unfolding clamped
clamped-bounds capacity = omega arith

new_arena-Sound : (capacity : ℕ) → Sound (new_arena capacity)
unfolding new_arena
new_arena-Sound capacity = (omega arith, (clamped-bounds capacity).0, tt)

-- Whatever capacity is asked for, and whatever the threads do with the new arena, the cursor stays
-- in bounds, and the ranges handed out and the rests of the chunks never overlap, lie behind the
-- null region and end at or below the cursor.
pub arena-Sound : (capacity : ℕ) {a : Arena} → Run (new_arena capacity) a → Sound a
arena-Sound capacity r = Run-Sound (new_arena-Sound capacity) r
