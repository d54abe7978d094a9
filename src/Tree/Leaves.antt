-- ===== src/Tree/Leaves.antt =====
-- The leaves of a tree in the order of the walks, and lists of leaves as maps.
use artmap.Prelude.{
  ◌≡◌, refl, sym, ◌∙◌, true, false, inl, inr, Option, none, some, List, [], ◌∷◌, ◌++◌,
  if◌then◌else◌, Bool-cases, none≢some,
}
use artmap.Prelude.Bytes.{Key, bytes_eq, bytes_eq_comm}
use artmap.Prelude.Order.{key_lt, key_lt-bytes_eq}
use artmap.Tree.{Leaf, Slot, null, leaf, inner, Node, node, Children, nil, cons}

abbrev mutual
  -- the exact leaf of a node first, then its children by byte
  pub leaves {ℓ} : {V : Type ℓ} → Slot V → List (Leaf V)
  leaves null = []
  leaves (leaf l) = l ∷ []
  leaves (inner n) = node_leaves n

  pub node_leaves {ℓ} : {V : Type ℓ} → Node V → List (Leaf V)
  node_leaves (node ty p none cs) = child_leaves cs
  node_leaves (node ty p (some l) cs) = l ∷ child_leaves cs

  pub child_leaves {ℓ} : {V : Type ℓ} → Children V → List (Leaf V)
  child_leaves nil = []
  child_leaves (cons b s cs) = leaves s ++ child_leaves cs

module _ {ℓ} {A : Type ℓ} where
  abbrev pub Every : (A → Type 0) → List A → Type 0
  Every P [] = Unit
  Every P (x ∷ xs) = P x × Every P xs

  pub Every-append :
      (P : A → Type 0) (xs ys : List A) → Every P xs → Every P ys → Every P (xs ++ ys)
  Every-append P [] ys h g = g
  Every-append P (x ∷ xs) ys h g = (h.0, Every-append P xs ys h.1 g)

  pub Every-map : (P Q : A → Type 0) (xs : List A) → ((x : A) → P x → Q x) → Every P xs → Every Q xs
  Every-map P Q [] f h = tt
  Every-map P Q (x ∷ xs) f h = (f x h.0, Every-map P Q xs f h.1)

  pub Every-all : (P : A → Type 0) (xs : List A) → ((x : A) → P x) → Every P xs
  Every-all P [] f = tt
  Every-all P (x ∷ xs) f = (f x, Every-all P xs f)

module _ {ℓ} {V : Type ℓ} where
  abbrev pub Before : Leaf V → Leaf V → Type 0
  Before l m = key_lt l.key m.key ≡ true

  -- strictly ascending keys
  abbrev pub Ascending : List (Leaf V) → Type 0
  Ascending [] = Unit
  Ascending (l ∷ ls) = Every (Before l) ls × Ascending ls

  -- a list of leaves as a map
  unfoldable pub look : Key → List (Leaf V) → Option (Leaf V)
  look key [] = none
  look key (l ∷ ls) = if bytes_eq l.key key then some l else look key ls

  pub Ascending-append :
      (xs ys : List (Leaf V))
      → Ascending xs
      → Ascending ys
      → Every (λ x. Every (Before x) ys) xs
      → Ascending (xs ++ ys)
  Ascending-append [] ys s t h = t
  Ascending-append (x ∷ xs) ys s t h =
      (Every-append (Before x) xs ys s.0 h.0, Ascending-append xs ys s.1 t h.1)

  pub look-none :
      (key : Key) (ls : List (Leaf V))
      → Every (λ l. bytes_eq l.key key ≡ false) ls
      → look key ls ≡ none
  unfolding look
  look-none key [] h = refl
  look-none key (l ∷ ls) h = rw h.0 (look-none key ls h.1)

  pub look-append :
      (key : Key) (xs ys : List (Leaf V)) → look key xs ≡ none → look key (xs ++ ys) ≡ look key ys
  unfolding look
  look-append key [] ys h = refl
  look-append key (x ∷ xs) ys h = elim (Bool-cases (bytes_eq x.key key)) [
    | inl same ↦ absurd (none≢some (sym (rw same at h)))
    | inr other ↦ rw other (look-append key xs ys (rw other at h))
  ]

  pub look-append_none :
      (key : Key) (xs ys : List (Leaf V)) → look key ys ≡ none → look key (xs ++ ys) ≡ look key xs
  unfolding look
  look-append_none key [] ys h = h
  look-append_none key (x ∷ xs) ys h = elim (Bool-cases (bytes_eq x.key key)) [
    | inl same ↦ rw same refl
    | inr other ↦ rw other (look-append_none key xs ys h)
  ]

  pub look-first :
      (key : Key) (l : Leaf V) (ls : List (Leaf V))
      → bytes_eq l.key key ≡ true
      → look key (l ∷ ls) ≡ some l
  unfolding look
  look-first key l ls h = rw h refl

  pub look-other :
      (key : Key) (l : Leaf V) (ls : List (Leaf V))
      → bytes_eq l.key key ≡ false
      → look key (l ∷ ls) ≡ look key ls
  unfolding look
  look-other key l ls h = rw h refl

  -- No leaf before the first of an ascending list is in it.
  pub look-before :
      (key : Key) (ls : List (Leaf V))
      → Every (λ m. key_lt key m.key ≡ true) ls
      → look key ls ≡ none
  look-before key ls h = look-none key ls (
      Every-map (λ m. key_lt key m.key ≡ true) (λ m. bytes_eq m.key key ≡ false) ls
        (λ m lt. bytes_eq_comm m.key key ∙ key_lt-bytes_eq key m.key lt) h)
