-- ===== src/Cursor/InDirection.antt =====
-- Kept leaves in the order of a direction, and the far bound.
use artmap.Prelude.{
  ◌≤◌, ◌≡◌, refl, ap, sym, ◌∙◌, Bool, true, false, ◌&&◌, ◌⊎◌, inl, inr, none, some, List, [], ◌∷◌,
  ◌++◌, length, reverse, reverse-cons, Bool-cases, length-append, arith,
}
use mathlib.Core.Path.{subst}
use mathlib.Core.Bool.{false≢true}
use mathlib.Core.List.{append-nil}
use artmap.Prelude.Bytes.{Key}
use artmap.Tree.{Leaf, Slot, null, leaf, inner, node, Children, nil, cons}
use artmap.Tree.Wf.{IsBytes, Wf, WfAll, IsTree}
use artmap.Tree.Fitted.{IsBytes-append}
use artmap.Tree.Leaves.{leaves, child_leaves, Every, Every-append, Every-map, Before, Ascending}
use artmap.Cursor.{Bound, Dir, forward, backward}
use artmap.Cursor.Sides.{above_start, below_end}
use artmap.Cursor.Turns.{directed}
use artmap.Cursor.Keeps.{keep, keep-append, keep-none}
use artmap.Cursor.Accepts.{Closed}
use artmap.Cursor.Scans.{up_to}
use artmap.Cursor.Bounds.{BoundBytes, far_test, below_mono, above_mono}

mutual
  leaves-IsBytes {ℓ} :
      {V : Type ℓ} (path : Key) (s : Slot V)
      → IsBytes path
      → Wf path s
      → Every (λ l. IsBytes l.key) (leaves s)
  leaves-IsBytes path null b w = absurd w
  leaves-IsBytes path (leaf l) b w = (w.2, tt)
  leaves-IsBytes path (inner (node ty p none cs)) b w =
      children-IsBytes (path ++ p) cs (IsBytes-append path p b w.1) w.5
  leaves-IsBytes path (inner (node ty p (some l) cs)) b w =
      let bp = IsBytes-append path p b w.1 in
      (subst IsBytes (sym w.2) bp, children-IsBytes (path ++ p) cs bp w.5)

  children-IsBytes {ℓ} :
      {V : Type ℓ} (path : Key) (cs : Children V)
      → IsBytes path
      → WfAll path cs
      → Every (λ l. IsBytes l.key) (child_leaves cs)
  children-IsBytes path nil b w = tt
  children-IsBytes path (cons x s cs) b w =
      Every-append (λ l. IsBytes l.key) (leaves s) (child_leaves cs)
        (leaves-IsBytes (path ++ x ∷ []) s (IsBytes-append path (x ∷ []) b (w.0, tt)) w.1)
        (children-IsBytes path cs b w.2)

module _ {ℓ} {V : Type ℓ} where
  pub tree-IsBytes : (root : Slot V) → IsTree root → Every (λ l. IsBytes l.key) (leaves root)
  tree-IsBytes null w = tt
  tree-IsBytes (leaf l) w = leaves-IsBytes [] (leaf l) tt w
  tree-IsBytes (inner n) w = leaves-IsBytes [] (inner n) tt w

  pub keep_cong :
      (p q : Key → Bool) (ls : List (Leaf V))
      → Every (λ l. p l.key ≡ q l.key) ls
      → keep p ls ≡ keep q ls
  keep_cong p q [] h = refl
  keep_cong p q (l ∷ ls) h = rw (h.0, keep_cong p q ls h.1) refl

  pub Every-keep :
      (P : Leaf V → Type 0) (p : Key → Bool) (ls : List (Leaf V)) → Every P ls → Every P (keep p ls)
  Every-keep P p [] h = tt
  Every-keep P p (l ∷ ls) h = elim (Bool-cases (p l.key)) [
    | inl hit ↦ rw hit (h.0, Every-keep P p ls h.1)
    | inr miss ↦ rw miss (Every-keep P p ls h.1)
  ]

  pub keep-Ascending : (p : Key → Bool) (ls : List (Leaf V)) → Ascending ls → Ascending (keep p ls)
  keep-Ascending p [] h = tt
  keep-Ascending p (l ∷ ls) h = elim (Bool-cases (p l.key)) [
    | inl hit ↦ rw hit (Every-keep (Before l) p ls h.0, keep-Ascending p ls h.1)
    | inr miss ↦ rw miss (keep-Ascending p ls h.1)
  ]

  pub keep-keep :
      (p q : Key → Bool) (ls : List (Leaf V)) → keep q (keep p ls) ≡ keep (λ k. p k && q k) ls
  keep-keep p q [] = refl
  keep-keep p q (l ∷ ls) = elim (Bool-cases (p l.key)) [
    | inr miss ↦ rw miss (keep-keep p q ls)
    | inl hit ↦ elim (Bool-cases (q l.key)) [
      | inl too ↦ rw (hit, too) (ap (λ t. l ∷ t) (keep-keep p q ls))
      | inr not_too ↦ rw (hit, not_too) (keep-keep p q ls)
    ]
  ]

  pub keep-reverse :
      (p : Key → Bool) (ls : List (Leaf V)) → keep p (reverse ls) ≡ reverse (keep p ls)
  keep-reverse p [] = refl
  keep-reverse p (l ∷ ls) =
      ap (keep p) (reverse-cons l ls)
      ∙ keep-append p (reverse ls) (l ∷ [])
      ∙ ap (λ t. t ++ keep p (l ∷ [])) (keep-reverse p ls)
      ∙ last (Bool-cases (p l.key))
    where
      last :
          (p l.key ≡ true) ⊎ (p l.key ≡ false)
          → reverse (keep p ls) ++ keep p (l ∷ []) ≡ reverse (keep p (l ∷ ls))
      last (inl hit) = rw hit (sym (reverse-cons l (keep p ls)))
      last (inr miss) = rw miss (append-nil (reverse (keep p ls)))

  pub length-keep : (p : Key → Bool) (ls : List (Leaf V)) → length (keep p ls) ≤ length ls
  length-keep p [] = omega arith
  length-keep p (l ∷ ls) = elim (Bool-cases (p l.key)) [
    | inl hit ↦ rw hit (omega (arith, length-keep p ls))
    | inr miss ↦ rw miss (omega (arith, length-keep p ls))
  ]

  length-reverse : (ls : List (Leaf V)) → length (reverse ls) ≡ length ls
  length-reverse [] = refl
  length-reverse (l ∷ ls) =
      ap length (reverse-cons l ls)
      ∙ omega (arith, length-append (reverse ls) (l ∷ []), length-reverse ls)

  pub length-directed : (d : Dir) (ls : List (Leaf V)) → length (directed d ls) ≡ length ls
  length-directed forward ls = refl
  length-directed backward ls = length-reverse ls

  -- Up to the first key outside, if no key behind it is inside, are the keys inside.
  pub up_to-keep :
      (far : Key → Bool) (ls : List (Leaf V)) → Closed far ls → up_to far ls ≡ keep far ls
  up_to-keep far [] c = refl
  up_to-keep far (l ∷ ls) c = elim (Bool-cases (far l.key)) [
    | inl hit ↦ rw hit (ap (λ t. l ∷ t) (up_to-keep far ls c.1))
    | inr miss ↦ rw miss (
        sym (
          keep-none far ls (
            Every-map (λ m. far m.key ≡ true → far l.key ≡ true) (λ m. far m.key ≡ false) ls
              (λ m h. outside (far m.key) (λ t. false≢true (sym miss ∙ h t))) c.0)))
  ]
    where
      outside : (b : Bool) → (b ≡ true → ⊥) → b ≡ false
      outside true h = absurd (h refl)
      outside false h = refl

  Closed-last :
      (far : Key → Bool) (ls : List (Leaf V)) (l : Leaf V)
      → Closed far ls
      → Every (λ m. far l.key ≡ true → far m.key ≡ true) ls
      → Closed far (ls ++ l ∷ [])
  Closed-last far [] l c h = (tt, tt)
  Closed-last far (m ∷ ls) l c h = (
    Every-append (λ x. far x.key ≡ true → far m.key ≡ true) ls (l ∷ []) c.0 (h.0, tt),
    Closed-last far ls l c.1 h.1,
  )

  Every-reverse : (P : Leaf V → Type 0) (ls : List (Leaf V)) → Every P ls → Every P (reverse ls)
  Every-reverse P [] h = tt
  Every-reverse P (l ∷ ls) h =
      subst (Every P) (sym (reverse-cons l ls))
        (Every-append P (reverse ls) (l ∷ []) (Every-reverse P ls h.1) (h.0, tt))

  Every-both :
      (P Q : Leaf V → Type 0) (ls : List (Leaf V))
      → Every P ls
      → Every Q ls
      → Every (λ l. P l × Q l) ls
  Every-both P Q [] h g = tt
  Every-both P Q (l ∷ ls) h g = ((h.0, g.0), Every-both P Q ls h.1 g.1)

  -- In the order of a direction, no key passes behind one outside the far bound.
  pub directed-Closed :
      (d : Dir) (bound : Bound) (ls : List (Leaf V))
      → BoundBytes bound
      → Every (λ l. IsBytes l.key) ls
      → Ascending ls
      → Closed (far_test d bound) (directed d ls)
  directed-Closed forward bound [] u b a = tt
  directed-Closed backward bound [] u b a = tt
  directed-Closed forward bound (l ∷ ls) u b a = (
    Every-map (λ m. IsBytes m.key × Before l m)
        (λ m. below_end m.key bound ≡ true → below_end l.key bound ≡ true) ls
        (λ m h g. below_mono l.key m.key bound b.0 h.0 u h.1 g)
        (Every-both (λ m. IsBytes m.key) (Before l) ls b.1 a.0),
    directed-Closed forward bound ls u b.1 a.1,
  )
  directed-Closed backward bound (l ∷ ls) u b a =
      subst (Closed (far_test backward bound)) (sym (reverse-cons l ls)) (
        Closed-last (far_test backward bound) (reverse ls) l
          (directed-Closed backward bound ls u b.1 a.1)
          (Every-reverse (λ m. above_start l.key bound ≡ true → above_start m.key bound ≡ true) ls
            (Every-map (λ m. IsBytes m.key × Before l m)
              (λ m. above_start l.key bound ≡ true → above_start m.key bound ≡ true) ls
              (λ m h g. above_mono l.key m.key bound b.0 h.0 u h.1 g)
              (Every-both (λ m. IsBytes m.key) (Before l) ls b.1 a.0))))
