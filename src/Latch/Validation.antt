-- ===== src/Latch/Validation.antt =====
-- The latch protocol: its holders, and reads that are validated.
use artmap.Prelude.{
  ℕ, ◌+◌, ◌*◌, ◌%◌, ◌^◌, ◌≤◌, ◌<◌, ◌≡◌, refl, sym, ap, ◌∙◌, true, none, some, List, [], ◌∷◌, ◌++◌,
  length, ◌==◌, if◌then◌else◌, arith,
}
use mathlib.Core.Path.{subst}
use artmap.Latch.{
  read_version, validate, try_upgrade, unlock, mark_obsolete, is_obsolete, has_obsolete, word_size,
  World, Step, enters, leaves, retires, Run, stays, goes, new_latch,
}

-- Idle and live, held by one guard, or obsolete and held by none.
pub data State : World → Type 0 where
  idle : (v : ℕ) → v < word_size → v % 4 ≡ 0 → State (record { word = v; guards = [] })
  held : (v : ℕ) → v < word_size → v % 4 ≡ 0 → State (record { word = v + 1; guards = v ∷ [] })
  obsolete : (v : ℕ) → v < word_size → v % 4 ≡ 0 → State (record { word = v + 2; guards = [] })

upgrade_is :
    (word v : ℕ) {word' : ℕ}
    → try_upgrade word v ≡ some word'
    → (word ≡ v) × (v % 4 ≡ 0) × (word' ≡ v + 1)
unfolding try_upgrade
upgrade_is word v h = ground arith

unlock_is : (v : ℕ) → v % 4 ≡ 0 → (unlock v < word_size) × (unlock v % 4 ≡ 0)
unfolding unlock
unlock_is v h = omega arith

mark_is : (v : ℕ) → v % 4 ≡ 0 → mark_obsolete v ≡ v + 2
unfolding mark_obsolete
mark_is v h = ground arith

module _ {ℓ} {A : Type ℓ} where
  -- A list of one element, cut at an element.
  cut_nil : (before : List A) (v : A) (after : List A) → [] ≡ before ++ v ∷ after → ⊥
  cut_nil [] v after h = cc
  cut_nil (x ∷ before) v after h = cc

  cut_one :
      (before : List A) (v : A) (after : List A) (g : A)
      → g ∷ [] ≡ before ++ v ∷ after
      → (g ≡ v) × (before ++ after ≡ [])
  cut_one [] v after g h = (cc, sym cc)
  cut_one (x ∷ before) v after g h = absurd (cut_nil before v after cc)

held_at :
    (v g word : ℕ)
    → g < word_size
    → g % 4 ≡ 0
    → g ≡ v
    → word ≡ v + 1
    → State (record { word = word; guards = v ∷ [] })
held_at v g word lt m e h =
    subst (λ x. State (record { word = x; guards = v ∷ [] })) (sym h)
      (held v (rw (← e) lt) (rw (← e) m))

-- Every step keeps the latch in one of its three states.
Step-State : {w w' : World} {k : ℕ} → State w → Step w w' k → State w'
Step-State (idle v0 lt m) (enters v w {word'} h) =
    let q = upgrade_is v0 v h in held_at v v0 word' lt m q.0 q.2
Step-State (held v0 lt m) (enters v w h) =
    let q = upgrade_is (v0 + 1) v h in absurd (omega (arith, q.0, q.1))
Step-State (obsolete v0 lt m) (enters v w h) =
    let q = upgrade_is (v0 + 2) v h in absurd (omega (arith, q.0, q.1))
Step-State (idle v0 lt m) (leaves v before after w h) = absurd (cut_nil before v after h)
Step-State (obsolete v0 lt m) (leaves v before after w h) = absurd (cut_nil before v after h)
Step-State (held v0 lt m) (leaves v before after w h) =
    let c = cut_one before v after v0 h in
    let u = unlock_is v (rw (← c.0) m) in
    subst (λ g. State (record { word = unlock v; guards = g })) (sym c.1) (idle (unlock v) u.0 u.1)
Step-State (idle v0 lt m) (retires v before after w h) = absurd (cut_nil before v after h)
Step-State (obsolete v0 lt m) (retires v before after w h) = absurd (cut_nil before v after h)
Step-State (held v0 lt m) (retires v before after w h) =
    let c = cut_one before v after v0 h in
    subst (λ g. State (record { word = mark_obsolete v; guards = g })) (sym c.1)
      (subst (λ x. State (record { word = x; guards = [] })) (sym (mark_is v (rw (← c.0) m)))
        (obsolete v (rw (← c.0) lt) (rw (← c.0) m)))

Run-State : {u w : World} {k : ℕ} → State u → Run u w k → State w
Run-State s (stays w) = s
Run-State s (goes r t) = Step-State (Run-State s r) t

new-State : State new_latch
new-State = idle 0 (omega arith) (omega arith)

exclusive : {w : World} → State w → length w.guards ≤ 1
exclusive (idle v lt m) = omega arith
exclusive (held v lt m) = omega arith
exclusive (obsolete v lt m) = omega arith

-- Whatever the threads do to a new latch, at most one of them holds it.
pub mutual_exclusion : {w : World} {k : ℕ} → Run new_latch w k → length w.guards ≤ 1
mutual_exclusion r = exclusive (Run-State new-State r)

-- Where the word stands, by the version it started from and the sections entered since.
data Since (v : ℕ) : ℕ → World → Type 0 where
  calm : (k : ℕ) → Since v k (record { word = (v + 4 * k) % word_size; guards = [] })
  busy :
      (k : ℕ)
      → Since v
          (k + 1)
          (record { word = (v + 4 * k) % word_size + 1; guards = (v + 4 * k) % word_size ∷ [] })
  over : (k : ℕ) → Since v (k + 1) (record { word = (v + 4 * k) % word_size + 2; guards = [] })

module _ (v0 : ℕ) (low : v0 % 4 ≡ 0) where
  mod_low : (k : ℕ) → (v0 + 4 * k) % word_size % 4 ≡ 0
  mod_low k = omega (arith, low)

  unlock_next : (k : ℕ) → unlock ((v0 + 4 * k) % word_size) ≡ (v0 + 4 * (k + 1)) % word_size
  unfolding unlock
  unlock_next k = omega arith

  busy_at :
      (k v word : ℕ)
      → (v0 + 4 * k) % word_size ≡ v
      → word ≡ v + 1
      → Since v0 (k + 1) (record { word = word; guards = v ∷ [] })
  busy_at k v word e h =
      subst (λ x. Since v0 (k + 1) (record { word = x; guards = v ∷ [] })) (sym h)
        (subst (λ x. Since v0 (k + 1) (record { word = x + 1; guards = x ∷ [] })) e (busy k))

  dead_step : (k m : ℕ) → k + 1 ≡ k + 1 + 0
  dead_step k m = omega arith

  Step-Since : {k m : ℕ} {w w' : World} → Since v0 k w → Step w w' m → Since v0 (k + m) w'
  Step-Since (calm k) (enters v w {word'} h) =
      let q = upgrade_is ((v0 + 4 * k) % word_size) v h in busy_at k v word' q.0 q.2
  Step-Since (busy k) (enters v w h) =
      let q = upgrade_is ((v0 + 4 * k) % word_size + 1) v h in
      absurd (omega (arith, q.0, q.1, mod_low k))
  Step-Since (over k) (enters v w h) =
      let q = upgrade_is ((v0 + 4 * k) % word_size + 2) v h in
      absurd (omega (arith, q.0, q.1, mod_low k))
  Step-Since (calm k) (leaves v before after w h) = absurd (cut_nil before v after h)
  Step-Since (over k) (leaves v before after w h) = absurd (cut_nil before v after h)
  Step-Since (busy k) (leaves v before after w h) =
      let c = cut_one before v after ((v0 + 4 * k) % word_size) h in
      subst (λ g. Since v0 (k + 1 + 0) (record { word = unlock v; guards = g })) (sym c.1)
        (subst (λ x. Since v0 (k + 1 + 0) (record { word = x; guards = [] }))
          (sym (unlock_next k) ∙ ap unlock c.0)
          (subst (λ j. Since v0 j (record { word = (v0 + 4 * (k + 1)) % word_size; guards = [] }))
            (dead_step k 0) (calm (k + 1))))
  Step-Since (calm k) (retires v before after w h) = absurd (cut_nil before v after h)
  Step-Since (over k) (retires v before after w h) = absurd (cut_nil before v after h)
  Step-Since (busy k) (retires v before after w h) =
      let c = cut_one before v after ((v0 + 4 * k) % word_size) h in
      subst (λ g. Since v0 (k + 1 + 0) (record { word = mark_obsolete v; guards = g })) (sym c.1)
        (subst (λ x. Since v0 (k + 1 + 0) (record { word = x; guards = [] }))
          (sym (mark_is ((v0 + 4 * k) % word_size) (mod_low k)) ∙ ap mark_obsolete c.0)
          (subst (λ j. Since v0 j (record { word = (v0 + 4 * k) % word_size + 2; guards = [] }))
            (dead_step k 0) (over k)))

  Run-Since : {u w : World} {k : ℕ} → Since v0 0 u → Run u w k → Since v0 k w
  Run-Since s (stays w) = s
  Run-Since s (goes r t) = Step-Since (Run-Since s r) t

  unchanged : {k : ℕ} {w : World} → v0 < word_size → k < 2 ^ 62 → Since v0 k w → w.word ≡ v0 → k ≡ 0
  unchanged lt few (calm k) e = omega (arith, e)
  unchanged lt few (busy k) e = absurd (omega (arith, e, low, mod_low k))
  unchanged lt few (over k) e = absurd (omega (arith, e, low, mod_low k))

reading :
    {w : World} {v : ℕ}
    → State w
    → read_version w.word ≡ some v
    → (v < word_size) × (v % 4 ≡ 0) × Since v 0 w
unfolding read_version
reading {v = v} (idle v0 lt m) h =
    let e = read_is v0 h in
    (
      rw (← e) lt,
      rw (← e) m,
      subst (λ x. Since v 0 (record { word = x; guards = [] }))
          (let z : (v + 4 * 0) % word_size ≡ v0 = omega (arith, e, lt) in z) (calm 0),
    )
  where
    read_is : (word : ℕ) → (if word % 4 == 0 then some word else none) ≡ some v → word ≡ v
    read_is word h = ground arith
reading (held v0 lt m) h = ground arith
reading (obsolete v0 lt m) h = ground arith

-- A reader that takes the version of a latch and validates it later has met no writer: of the
-- steps in between, fewer than 2 ^ 62 of which enter a critical section, none does.
pub read-validate :
    {u w : World} {j k v : ℕ}
    → Run new_latch u j
    → Run u w k
    → read_version u.word ≡ some v
    → validate w.word v ≡ true
    → k < 2 ^ 62
    → k ≡ 0
unfolding validate
read-validate {u} {w} {j} {k} {v} r s h ok few =
    let q = reading (Run-State new-State r) h in
    unchanged v q.1 q.0 few (Run-Since v q.1 q.2 s) (ground arith)

stuck :
    {w w' : World} {k : ℕ}
    → State w
    → Step w w' k
    → is_obsolete w.word ≡ true
    → (w'.word ≡ w.word) × (k ≡ 0)
unfolding is_obsolete
stuck (idle v0 lt m) t h = absurd (flagged v0 h)
  where
    flagged : (v : ℕ) → has_obsolete v0 ≡ true → ⊥
    flagged v e = ground arith
stuck (held v0 lt m) t h = absurd (flagged h)
  where
    flagged : has_obsolete (v0 + 1) ≡ true → ⊥
    flagged e = ground arith
stuck (obsolete v0 lt m) (enters v w e) h =
    let q = upgrade_is (v0 + 2) v e in absurd (omega (arith, q.0, q.1))
stuck (obsolete v0 lt m) (leaves v before after w e) h = absurd (cut_nil before v after e)
stuck (obsolete v0 lt m) (retires v before after w e) h = absurd (cut_nil before v after e)

stays_stuck :
    {u w : World} {k : ℕ}
    → State u
    → Run u w k
    → is_obsolete u.word ≡ true
    → (w.word ≡ u.word) × (k ≡ 0)
stays_stuck s (stays w) h = (refl, refl)
stays_stuck s (goes r t) h =
    let q = stays_stuck s r h in
    let p = stuck (Run-State s r) t (ap is_obsolete q.0 ∙ h) in (p.0 ∙ q.0, omega (arith, p.1, q.1))

-- An obsolete latch stays as it is: on any run from there, no thread enters a critical section
-- and its word does not change.
pub obsolete_is_permanent :
    {u w : World} {j k : ℕ}
    → Run new_latch u j
    → Run u w k
    → is_obsolete u.word ≡ true
    → (w.word ≡ u.word) × (k ≡ 0)
obsolete_is_permanent r s h = stays_stuck (Run-State new-State r) s h
