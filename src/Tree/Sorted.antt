-- ===== src/Tree/Sorted.antt =====
-- Ascending lists of leaves as maps: the sorted insert, the removal of a key, and equality.
use artmap.Prelude.{
  ℕ, suc, ◌+◌, ◌≡◌, refl, ap, sym, ◌∙◌, true, false, inl, inr, Option, none, some, List, [], ◌∷◌,
  length, if◌then◌else◌, Bool-cases, some_inj, none≢some, arith,
}
use mathlib.Core.Path.{subst}
use artmap.Prelude.Bytes.{Key, bytes_eq, bytes_eq_refl, bytes_eq_sound, bytes_eq_comm}
use artmap.Prelude.Order.{key_lt, key_lt_trans, key_lt_total}
use artmap.Tree.{Leaf}
use artmap.Tree.Leaves.{
  Every, Every-map, Before, Ascending, look, look-before, look-first, look-other,
}

module _ {ℓ} {V : Type ℓ} where
  -- the sorted insert, which replaces the leaf of an equal key
  abbrev pub put : Leaf V → List (Leaf V) → List (Leaf V)
  put l [] = l ∷ []
  put l (m ∷ ls) =
      let rest = put l ls in
      if key_lt l.key m.key then l ∷ m ∷ ls else if bytes_eq m.key l.key then l ∷ ls else m ∷ rest

  abbrev pub without : Key → List (Leaf V) → List (Leaf V)
  without key [] = []
  without key (m ∷ ls) = let rest = without key ls in if bytes_eq m.key key then ls else m ∷ rest

  -- one more leaf, if the key had none
  abbrev pub one_more : Option (Leaf V) → ℕ
  one_more none = 1
  one_more (some l) = 0

  look_at :
      (k : Key) (m : Leaf V) (ls : List (Leaf V))
      → look k (m ∷ ls) ≡ (if bytes_eq m.key k then some m else look k ls)
  unfolding look
  look_at k m ls = refl

  -- A list with an equal head and equally read tails.
  look_cong :
      (k : Key) (m : Leaf V) (ls : List (Leaf V)) {o : Option (Leaf V)}
      → look k ls ≡ o
      → look k (m ∷ ls) ≡ (if bytes_eq m.key k then some m else o)
  look_cong k m ls {o} h = look_at k m ls ∙ ap (λ t. if bytes_eq m.key k then some m else t) h

  same_key_look :
      (k j i : Key) (o : Option (Leaf V)) (a b : Leaf V)
      → j ≡ i
      → (if bytes_eq j k then some a else if bytes_eq i k then some b else o)
        ≡ (if bytes_eq j k then some a else o)
  same_key_look k j i o a b e =
      subst
        (λ x.
          (if bytes_eq j k then some a else if bytes_eq x k then some b else o)
          ≡ (if bytes_eq j k then some a else o))
        e (twice (bytes_eq j k))
    where
      twice : (t : _) → (if t then some a else if t then some b else o) ≡ (if t then some a else o)
      twice true = refl
      twice false = refl

  swap_look :
      (k : Key) (m l : Leaf V) (o : Option (Leaf V))
      → bytes_eq m.key l.key ≡ false
      → (if bytes_eq m.key k then some m else if bytes_eq l.key k then some l else o)
        ≡ (if bytes_eq l.key k then some l else if bytes_eq m.key k then some m else o)
  swap_look k m l o h = elim (Bool-cases (bytes_eq m.key k)) [
    | inr other ↦ rw other refl
    | inl same ↦ elim (Bool-cases (bytes_eq l.key k)) [
      | inr other ↦ rw (same, other) refl
      | inl too ↦ absurd (
          none≢some {A = Leaf V} {a = m} (
            ap (λ t. if t then some m else none)
              (sym h ∙ ap (bytes_eq m.key) (bytes_eq_sound l.key k too) ∙ same)))
    ]
  ]

  pub look-put :
      (k : Key) (l : Leaf V) (ls : List (Leaf V))
      → look k (put l ls) ≡ (if bytes_eq l.key k then some l else look k ls)
  look-put k l [] = look_at k l []
  look-put k l (m ∷ ls) = elim (Bool-cases (key_lt l.key m.key)) [
    | inl below ↦ rw below (look_at k l (m ∷ ls))
    | inr up ↦ elim (Bool-cases (bytes_eq m.key l.key)) [
      | inl same ↦
          rw (up, same)
            (look_at k l ls
              ∙ sym (
                  ap (λ t. if bytes_eq l.key k then some l else t) (look_at k m ls)
                  ∙ same_key_look k l.key m.key (look k ls) l m
                      (sym (bytes_eq_sound m.key l.key same))))
      | inr other ↦
          rw (up, other)
            (look_cong k m (put l ls) (look-put k l ls)
              ∙ swap_look k m l (look k ls) other
              ∙ ap (λ t. if bytes_eq l.key k then some l else t) (sym (look_at k m ls)))
    ]
  ]

  Every-put :
      (P : Leaf V → Type 0) (l : Leaf V) (ls : List (Leaf V))
      → P l
      → Every P ls
      → Every P (put l ls)
  Every-put P l [] h g = (h, tt)
  Every-put P l (m ∷ ls) h g = elim (Bool-cases (key_lt l.key m.key)) [
    | inl below ↦ rw below (h, g)
    | inr up ↦ elim (Bool-cases (bytes_eq m.key l.key)) [
      | inl same ↦ rw (up, same) (h, g.1)
      | inr other ↦ rw (up, other) (g.0, Every-put P l ls h g.1)
    ]
  ]

  Before-all :
      (l m : Leaf V) (ls : List (Leaf V)) → Before l m → Every (Before m) ls → Every (Before l) ls
  Before-all l m ls h g =
      Every-map (Before m) (Before l) ls (λ x b. key_lt_trans l.key m.key x.key h b) g

  pub put-Ascending : (l : Leaf V) (ls : List (Leaf V)) → Ascending ls → Ascending (put l ls)
  put-Ascending l [] s = (tt, tt)
  put-Ascending l (m ∷ ls) s = elim (Bool-cases (key_lt l.key m.key)) [
    | inl below ↦ rw below ((below, Before-all l m ls below s.0), s)
    | inr up ↦ elim (Bool-cases (bytes_eq m.key l.key)) [
      | inl same ↦
          rw (up, same)
            (
              Every-map (Before m) (Before l) ls
                  (λ x b. ap (λ k. key_lt k x.key) (sym (bytes_eq_sound m.key l.key same)) ∙ b) s.0,
              s.1,
            )
      | inr other ↦
          rw (up, other)
            (
              Every-put (Before m) l ls
                  (key_lt_total l.key m.key up (bytes_eq_comm l.key m.key ∙ other)) s.0,
              put-Ascending l ls s.1,
            )
    ]
  ]

  counted : (n : ℕ) {o : Option (Leaf V)} → o ≡ none → suc n ≡ n + one_more o
  counted n {o} e = (let q : suc n ≡ n + 1 = omega arith in q) ∙ ap (λ t. n + one_more t) (sym e)

  pub length-put :
      (l : Leaf V) (ls : List (Leaf V))
      → Ascending ls
      → length (put l ls) ≡ length ls + one_more (look l.key ls)
  unfolding look
  length-put l [] s = refl
  length-put l (m ∷ ls) s = elim (Bool-cases (key_lt l.key m.key)) [
    | inl below ↦
        let e = look-before l.key (m ∷ ls) (below, Before-all l m ls below s.0) in
        rw below (counted (length (m ∷ ls)) e)
    | inr up ↦ elim (Bool-cases (bytes_eq m.key l.key)) [
      | inl same ↦ rw (up, same) (omega arith)
      | inr other ↦ rw (up, other) (omega (arith, length-put l ls s.1))
    ]
  ]

  Every-without :
      (P : Leaf V → Type 0) (key : Key) (ls : List (Leaf V)) → Every P ls → Every P (without key ls)
  Every-without P key [] g = tt
  Every-without P key (m ∷ ls) g = elim (Bool-cases (bytes_eq m.key key)) [
    | inl same ↦ rw same g.1
    | inr other ↦ rw other (g.0, Every-without P key ls g.1)
  ]

  pub without-Ascending :
      (key : Key) (ls : List (Leaf V)) → Ascending ls → Ascending (without key ls)
  without-Ascending key [] s = tt
  without-Ascending key (m ∷ ls) s = elim (Bool-cases (bytes_eq m.key key)) [
    | inl same ↦ rw same s.1
    | inr other ↦ rw other (Every-without (Before m) key ls s.0, without-Ascending key ls s.1)
  ]

  gone :
      (k : Key) (m : Leaf V) (ls : List (Leaf V))
      → Every (Before m) ls
      → bytes_eq m.key k ≡ true
      → look k ls ≡ none
  gone k m ls s e = look-before k ls (
      Every-map (Before m) (λ x. key_lt k x.key ≡ true) ls
        (λ x b. ap (λ j. key_lt j x.key) (sym (bytes_eq_sound m.key k e)) ∙ b) s)

  pub look-without :
      (k key : Key) (ls : List (Leaf V))
      → Ascending ls
      → look k (without key ls) ≡ (if bytes_eq key k then none else look k ls)
  look-without k key [] s = nothing (bytes_eq key k)
    where
      nothing : (t : _) → look {V = V} k [] ≡ (if t then none else look {V = V} k [])
      nothing true = unfold look in refl
      nothing false = refl
  look-without k key (m ∷ ls) s = elim (Bool-cases (bytes_eq m.key key)) [
    | inl same ↦
        let e = bytes_eq_sound m.key key same in
        elim (Bool-cases (bytes_eq key k)) [
          | inl hit ↦ rw (same, hit) (gone k m ls s.0 (ap (λ j. bytes_eq j k) e ∙ hit))
          | inr miss ↦ rw (same, miss) (sym (look-other k m ls (ap (λ j. bytes_eq j k) e ∙ miss)))
        ]
    | inr other ↦ elim (Bool-cases (bytes_eq key k)) [
      | inl hit ↦
          rw (other, hit)
            (look-other k m (without key ls)
                (ap (bytes_eq m.key) (sym (bytes_eq_sound key k hit)) ∙ other)
              ∙ look-without k key ls s.1
              ∙ ap (λ t. if t then none else look k ls) hit)
      | inr miss ↦
          rw (other, miss)
            (look_cong k m (without key ls)
                (look-without k key ls s.1 ∙ ap (λ t. if t then none else look k ls) miss)
              ∙ sym (look_at k m ls))
    ]
  ]

  absent : {l : Leaf V} {o : Option (Leaf V)} → o ≡ none → o ≡ some l → ⊥
  absent n h = none≢some (sym n ∙ h)

  look_empty : (k : Key) → look {V = V} k [] ≡ none
  unfolding look
  look_empty k = refl

  tails :
      (x y : Leaf V) (xs ys : List (Leaf V))
      → Ascending (x ∷ xs)
      → Ascending (y ∷ ys)
      → x.key ≡ y.key
      → ((k : Key) → look k (x ∷ xs) ≡ look k (y ∷ ys))
      → (k : Key) → look k xs ≡ look k ys
  tails x y xs ys s t e h k = elim (Bool-cases (bytes_eq x.key k)) [
    | inl hit ↦ gone k x xs s.0 hit ∙ sym (gone k y ys t.0 (ap (λ j. bytes_eq j k) (sym e) ∙ hit))
    | inr miss ↦
        sym (look-other k x xs miss)
        ∙ h k
        ∙ look-other k y ys (ap (λ j. bytes_eq j k) (sym e) ∙ miss)
  ]

  pub length-without :
      (key : Key) {l : Leaf V} (ls : List (Leaf V))
      → look key ls ≡ some l
      → suc (length (without key ls)) ≡ length ls
  length-without key {l} [] h = absurd (absent (look_empty key) h)
  length-without key {l} (m ∷ ls) h = elim (Bool-cases (bytes_eq m.key key)) [
    | inl same ↦ rw same refl
    | inr other ↦
        rw other (ap suc (length-without key {l = l} ls (sym (look-other key m ls other) ∙ h)))
  ]

  pub look_key : (k : Key) {l : Leaf V} (ls : List (Leaf V)) → look k ls ≡ some l → l.key ≡ k
  look_key k {l} [] h = absurd (absent (look_empty k) h)
  look_key k {l} (m ∷ ls) h = elim (Bool-cases (bytes_eq m.key k)) [
    | inl same ↦
        ap (λ x. x.key) (some_inj (sym h ∙ look-first k m ls same)) ∙ bytes_eq_sound m.key k same
    | inr other ↦ look_key k {l = l} ls (sym (look-other k m ls other) ∙ h)
  ]

  -- Ascending lists that read alike are equal.
  pub Ascending-unique :
      (xs ys : List (Leaf V))
      → Ascending xs
      → Ascending ys
      → ((k : Key) → look k xs ≡ look k ys)
      → xs ≡ ys
  Ascending-unique [] [] s t h = refl
  Ascending-unique [] (y ∷ ys) s t h =
      absurd (absent (look_empty y.key) (h y.key ∙ look-first y.key y ys (bytes_eq_refl y.key)))
  Ascending-unique (x ∷ xs) [] s t h =
      absurd
        (absent (look_empty x.key) (sym (h x.key) ∙ look-first x.key x xs (bytes_eq_refl x.key)))
  Ascending-unique (x ∷ xs) (y ∷ ys) s t h =
      let fx = look-first x.key x xs (bytes_eq_refl x.key) in
      let fy = look-first y.key y ys (bytes_eq_refl y.key) in
      elim (Bool-cases (key_lt x.key y.key)) [
        | inl below ↦ absurd (
            absent (look-before x.key (y ∷ ys) (below, Before-all x y ys below t.0))
              (sym (h x.key) ∙ fx))
        | inr up ↦ elim (Bool-cases (bytes_eq x.key y.key)) [
          | inr other ↦
              let above = key_lt_total x.key y.key up other in
              absurd (
                absent (look-before y.key (x ∷ xs) (above, Before-all y x xs above s.0))
                  (h y.key ∙ fy))
          | inl same ↦
              let e = bytes_eq_sound x.key y.key same in
              cons_eq (some_inj (sym (look-first y.key x xs same) ∙ h y.key ∙ fy))
                (Ascending-unique xs ys s.1 t.1 (tails x y xs ys s t e h))
        ]
      ]
    where
      cons_eq : {a b : Leaf V} {ls ms : List (Leaf V)} → a ≡ b → ls ≡ ms → a ∷ ls ≡ b ∷ ms
      cons_eq {a} {b} {ls} {ms} p q = ap (λ t. t ∷ ls) p ∙ ap (λ t. b ∷ t) q
