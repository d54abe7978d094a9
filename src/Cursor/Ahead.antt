-- ===== src/Cursor/Ahead.antt =====
-- The entries of a node that a frame has before it, in its direction.
use artmap.Prelude.{
  ℕ, zero, suc, ◌≤◌, ◌<◌, ◌≡◌, refl, ap, sym, ◌∙◌, true, false, inl, inr, Option, none, some, [],
  ◌∷◌, ◌++◌, leb, ◌==◌, if◌then◌else◌, Bool-cases, Option-cases, leb→le, le→leb, leb-false,
  some_inj, none≢some, arith,
}
use mathlib.Core.Path.{subst}
use artmap.Prelude.Entries.{Entries, Above, IsSorted, find, find-Above}
use artmap.Prelude.Ints.{ℤ, pos, negsuc}
use artmap.Cursor.{Dir, forward, backward, after, next_child, prev_child, found}

module _ {ℓ} {A : Type ℓ} where
  abbrev pub ByteEntries : Entries A → Type 0
  ByteEntries [] = Unit
  ByteEntries ((b, c) ∷ es) = (b < 256) × ByteEntries es

  abbrev pub from_byte : ℕ → Entries A → Entries A
  from_byte k [] = []
  from_byte k ((b, c) ∷ es) = if leb k b then (b, c) ∷ from_byte k es else from_byte k es

  abbrev pub down_from : ℕ → Entries A → Entries A
  down_from k [] = []
  down_from k ((b, c) ∷ es) = down_from k es ++ (if leb b k then (b, c) ∷ [] else [])

  abbrev pub ahead : Dir → ℤ → Entries A → Entries A
  ahead forward (pos k) es = from_byte k es
  ahead forward (negsuc k) es = []
  ahead backward (pos k) es = down_from k es
  ahead backward (negsuc k) es = []

  abbrev pub Splits : Dir → ℤ → Entries A → Option (ℕ × A) → Type ℓ
  Splits d next es none = ahead d next es ≡ []
  Splits d next es (some (b, c)) = ahead d next es ≡ (b, c) ∷ ahead d (after d b) es

  pub from_byte-all : (k m : ℕ) (es : Entries A) → Above m es → k ≤ suc m → from_byte k es ≡ es
  from_byte-all k m [] a h = refl
  from_byte-all k m ((b, c) ∷ es) a h =
      let q = le→leb k b (omega (arith, a.0)) in
      rw q (ap (λ t. (b, c) ∷ t) (from_byte-all k m es a.1 h))

  pub from_byte-zero : (es : Entries A) → from_byte 0 es ≡ es
  from_byte-zero [] = refl
  from_byte-zero ((b, c) ∷ es) =
      let q : leb 0 b ≡ true = le→leb 0 b (omega arith) in
      rw q (ap (λ t. (b, c) ∷ t) (from_byte-zero es))

  pub down_from-none : (k m : ℕ) (es : Entries A) → Above m es → k ≤ m → down_from k es ≡ []
  down_from-none k m [] a h = refl
  down_from-none k m ((b, c) ∷ es) a h =
      let q : leb b k ≡ false = let lt = a.0 in ground arith in
      rw (q, down_from-none k m es a.1 h) refl

  next_child-ge : (k : ℕ) {b : ℕ} {c : A} (es : Entries A) → next_child k es ≡ some (b, c) → k ≤ b
  unfolding next_child
  next_child-ge k {b} {c} [] h = absurd (none≢some h)
  next_child-ge k {b} {c} ((x, a) ∷ es) h = elim (Bool-cases (leb k x)) [
    | inl hit ↦
        let e : x ≡ b = ap (λ t. t.0) (some_inj (rw hit at h)) in
        let q = leb→le k x hit in omega (arith, e)
    | inr miss ↦ next_child-ge k {c = c} es (rw miss at h)
  ]

  -- Forward: the first entry from a byte on, and the entries behind it.
  next_skip :
      (k x : ℕ) (a : A) (es : Entries A) (o : Option (ℕ × A))
      → leb k x ≡ false
      → next_child k es ≡ o
      → Splits forward (pos k) es o
      → Splits forward (pos k) ((x, a) ∷ es) o
  next_skip k x a es none miss h g = rw miss g
  next_skip k x a es (some (b, c)) miss h g =
      let ge = next_child-ge k {c = c} es h in
      let q : leb (suc b) x ≡ false = ground arith in rw (miss, q) g

  next_here :
      (k x : ℕ) (a : A) (es : Entries A)
      → leb k x ≡ true
      → Above x es
      → Splits forward (pos k) ((x, a) ∷ es) (some (x, a))
  next_here k x a es hit above =
      let q : leb (suc x) x ≡ false = ground arith in
      let le = leb→le k x hit in
      rw (hit, q)
        (ap (λ t. (x, a) ∷ t)
          (from_byte-all k x es above (omega (arith, le))
            ∙ sym (from_byte-all (suc x) x es above (omega arith))))

  next_child-Splits :
      (k : ℕ) (es : Entries A) → IsSorted es → Splits forward (pos k) es (next_child k es)
  unfolding next_child
  next_child-Splits k [] s = refl
  next_child-Splits k ((x, a) ∷ es) s = elim (Bool-cases (leb k x)) [
    | inl hit ↦
        let e : some (x, a) ≡ next_child k ((x, a) ∷ es) = rw hit refl in
        subst (Splits forward (pos k) ((x, a) ∷ es)) e (next_here k x a es hit s.0)
    | inr miss ↦
        let e : next_child k es ≡ next_child k ((x, a) ∷ es) = rw miss refl in
        subst (Splits forward (pos k) ((x, a) ∷ es)) e
          (next_skip k x a es (next_child k es) miss refl (next_child-Splits k es s.1))
  ]

  -- Backward: the last entry up to a byte, and the entries before it, from the last.
  prev_more :
      (k x b : ℕ) (a c : A) (es : Entries A)
      → x < b
      → b ≤ k
      → Splits backward (pos k) es (some (b, c))
      → Splits backward (pos k) ((x, a) ∷ es) (some (b, c))
  prev_more k x zero a c es lt le g = absurd (omega arith)
  prev_more k x (suc b) a c es lt le g =
      let q : leb x k ≡ true = ground arith in
      let r : leb x b ≡ true = ground arith in rw (q, r) (ap (λ t. t ++ (x, a) ∷ []) g)

  prev_here :
      (k x : ℕ) (a : A) (es : Entries A)
      → leb x k ≡ true
      → Above x es
      → down_from k es ≡ []
      → Splits backward (pos k) ((x, a) ∷ es) (some (x, a))
  prev_here k zero a es hit above none_of = rw (hit, none_of) refl
  prev_here k (suc x) a es hit above none_of =
      let q : leb (suc x) x ≡ false = ground arith in
      rw (hit, none_of, q, down_from-none x (suc x) es above (omega arith)) refl

  prev_child-between :
      (k m : ℕ) {b : ℕ} {c : A} (es : Entries A)
      → Above m es
      → prev_child k es ≡ some (b, c)
      → (m < b) × (b ≤ k)
  unfolding prev_child
  prev_child-between k m {b} {c} [] above h = absurd (none≢some h)
  prev_child-between k m {b} {c} ((x, a) ∷ es) above h = elim (Option-cases (prev_child k es)) [
    | inr (e, p) ↦ prev_child-between k m {c = c} es above.1 (p ∙ (rw p at h))
    | inl p ↦ elim (Bool-cases (leb x k)) [
      | inl hit ↦
          let e : x ≡ b = ap (λ t. t.0) (some_inj (rw (p, hit) at h)) in
          let r = leb→le x k hit in let lt = above.0 in (omega (arith, e), omega (arith, e))
      | inr miss ↦ absurd (none≢some (rw (p, miss) at h))
    ]
  ]

  prev_child-Splits :
      (k : ℕ) (es : Entries A) → IsSorted es → Splits backward (pos k) es (prev_child k es)
  unfolding prev_child
  prev_child-Splits k [] s = refl
  prev_child-Splits k ((x, a) ∷ es) s = elim (Option-cases (prev_child k es)) [
    | inr ((b, c), p) ↦
        let w = prev_child-between k x es s.0 p in
        rw p (
          prev_more k x b a c es w.0 w.1
            (subst (Splits backward (pos k) es) p (prev_child-Splits k es s.1)))
    | inl p ↦
        let g : down_from k es ≡ [] =
          subst (Splits backward (pos k) es) p (prev_child-Splits k es s.1) in
        elim (Bool-cases (leb x k)) [
          | inl hit ↦
              let e : some (x, a) ≡ prev_child k ((x, a) ∷ es) = rw (p, hit) refl in
              subst (Splits backward (pos k) ((x, a) ∷ es)) e (prev_here k x a es hit s.0 g)
          | inr miss ↦
              let e : none ≡ prev_child k ((x, a) ∷ es) = rw (p, miss) refl in
              subst (Splits backward (pos k) ((x, a) ∷ es)) e (rw (miss, g) refl)
        ]
  ]

  from_byte-beyond : (k : ℕ) (es : Entries A) → ByteEntries es → 255 < k → from_byte k es ≡ []
  from_byte-beyond k [] w lt = refl
  from_byte-beyond k ((b, c) ∷ es) w lt =
      let q : leb k b ≡ false = let h = w.0 in ground arith in rw q (from_byte-beyond k es w.1 lt)

  -- What `found` finds is the first of the entries ahead, and without it they are those ahead of
  -- where the search goes on.
  pub found-Splits :
      (d : Dir) (next : ℤ) (es : Entries A)
      → IsSorted es
      → ByteEntries es
      → Splits d next es (found d next es)
  unfolding found
  found-Splits forward (pos k) es s w = elim (Bool-cases (leb k 255)) [
    | inl within ↦ rw within (next_child-Splits k es s)
    | inr over ↦ rw over (from_byte-beyond k es w (leb-false k 255 over))
  ]
  found-Splits forward (negsuc k) es s w = refl
  found-Splits backward (pos k) es s w = prev_child-Splits k es s
  found-Splits backward (negsuc k) es s w = refl

  next_child-at :
      (byte : ℕ) {c : A} (es : Entries A)
      → IsSorted es
      → find byte es ≡ some c
      → next_child byte es ≡ some (byte, c)
  unfolding find next_child
  next_child-at byte {c} [] s h = absurd (none≢some h)
  next_child-at byte {c} ((k, a) ∷ es) s h = elim (Bool-cases (k == byte)) [
    | inl same ↦
        let e : k ≡ byte = ground arith in
        let hit : leb byte k ≡ true = ground arith in
        rw hit (ap (λ j. some (j, a)) e ∙ ap (λ x. some (byte, x)) (some_inj (rw same at h)))
    | inr other ↦ elim (Bool-cases (leb byte k)) [
      | inr miss ↦ rw miss (next_child-at byte es s.1 (rw other at h))
      | inl low ↦ absurd (
          none≢some (
            sym (find-Above k byte es s.0 (let q = leb→le byte k low in omega arith))
            ∙ (rw other at h)))
    ]
  ]

  prev_child-none : (k m : ℕ) (es : Entries A) → Above m es → k ≤ m → prev_child k es ≡ none
  unfolding prev_child
  prev_child-none k m [] a h = refl
  prev_child-none k m ((b, c) ∷ es) a h =
      let q : leb b k ≡ false = let lt = a.0 in ground arith in
      rw (prev_child-none k m es a.1 h, q) refl

  prev_child-at :
      (byte : ℕ) {c : A} (es : Entries A)
      → IsSorted es
      → find byte es ≡ some c
      → prev_child byte es ≡ some (byte, c)
  unfolding find prev_child
  prev_child-at byte {c} [] s h = absurd (none≢some h)
  prev_child-at byte {c} ((k, a) ∷ es) s h = elim (Bool-cases (k == byte)) [
    | inr other ↦ rw (prev_child-at byte {c = c} es s.1 (rw other at h)) refl
    | inl same ↦
        let e : k ≡ byte = ground arith in
        let hit : leb k byte ≡ true = ground arith in
        rw (prev_child-none byte k es s.0 (omega (arith, e)), hit)
          (ap (λ j. some (j, a)) e ∙ ap (λ x. some (byte, x)) (some_inj (rw same at h)))
  ]

  find-byte :
      (byte : ℕ) {c : A} (es : Entries A) → ByteEntries es → find byte es ≡ some c → byte < 256
  unfolding find
  find-byte byte {c} [] b h = absurd (none≢some h)
  find-byte byte {c} ((k, a) ∷ es) b h = elim (Bool-cases (k == byte)) [
    | inr other ↦ find-byte byte {c = c} es b.1 (rw other at h)
    | inl same ↦ let e : k ≡ byte = ground arith in let lt = b.0 in omega (arith, e)
  ]

  find-found :
      (d : Dir) (byte : ℕ) {c : A} (es : Entries A)
      → IsSorted es
      → ByteEntries es
      → find byte es ≡ some c
      → found d (pos byte) es ≡ some (byte, c)
  unfolding found
  find-found forward byte {c} es s b h =
      let q = le→leb byte 255 (let lt = find-byte byte {c = c} es b h in omega arith) in
      rw q (next_child-at byte es s h)
  find-found backward byte {c} es s b h = prev_child-at byte es s h

  -- The entries ahead of a byte that has one.
  pub ahead-at :
      (d : Dir) (byte : ℕ) {c : A} (es : Entries A)
      → IsSorted es
      → ByteEntries es
      → find byte es ≡ some c
      → ahead d (pos byte) es ≡ (byte, c) ∷ ahead d (after d byte) es
  ahead-at d byte {c} es s b h =
      subst (Splits d (pos byte) es) (find-found d byte es s b h) (found-Splits d (pos byte) es s b)
