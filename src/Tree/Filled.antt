-- ===== src/Tree/Filled.antt =====
-- Trees without an empty inner node, as `validate` of src/raw/walk.rs asserts, and the operations
-- on one node of src/raw/node.rs.
use artmap.Prelude.{
  ℕ, suc, ◌+◌, ◌<◌, ◌≡◌, refl, sym, ap, ◌∙◌, false, inl, inr, Option, none, some, [], ◌∷◌, length,
  ◌==◌, ltb, Bool-cases, some_inj, none≢some, arith,
}
use mathlib.Core.Path.{subst}
use mathlib.Core.Bool.{false≢true}
use artmap.Prelude.Entries.{
  Entries, find, insert, replace, remove, length-remove, length-insert, length-replace,
}
use artmap.Tree.{
  Leaf, Slot, null, leaf, inner, Node, node, Children, nil, cons, to_entries, of_entries,
  to_entries-of_entries, exact_leaf, entries, find_child, insert_child, replace_child, remove_child,
  set_exact_leaf,
}
use artmap.Tree.Remove.{
  exact, child, nothing, to_nat, has_exact, emptied_by, take_out, unlink_if_empty,
}

-- An exact leaf or a child.
abbrev Occupied {ℓ} : {V : Type ℓ} → Option (Leaf V) → Entries (Slot V) → Type 0
Occupied (some l) es = Unit
Occupied none [] = ⊥
Occupied none (e ∷ es) = Unit

-- No inner node is empty.
abbrev mutual
  pub Filled {ℓ} : {V : Type ℓ} → Slot V → Type 0
  Filled null = Unit
  Filled (leaf l) = Unit
  Filled (inner n) = FilledNode n

  pub FilledNode {ℓ} : {V : Type ℓ} → Node V → Type 0
  FilledNode (node ty p ex cs) = Occupied ex (to_entries cs) × FilledAll cs

  FilledAll {ℓ} : {V : Type ℓ} → Children V → Type 0
  FilledAll nil = Unit
  FilledAll (cons b s cs) = Filled s × FilledAll cs

module _ {ℓ} {V : Type ℓ} where
  -- `FilledAll` of a list of entries
  abbrev FilledEntries : Entries (Slot V) → Type 0
  FilledEntries [] = Unit
  FilledEntries ((b, s) ∷ es) = Filled s × FilledEntries es

  FilledAll-entries : (cs : Children V) → FilledAll cs → FilledEntries (to_entries cs)
  FilledAll-entries nil h = tt
  FilledAll-entries (cons b s cs) h = (h.0, FilledAll-entries cs h.1)

  FilledEntries-of : (es : Entries (Slot V)) → FilledEntries es → FilledAll (of_entries es)
  FilledEntries-of [] h = tt
  FilledEntries-of ((b, s) ∷ es) h = (h.0, FilledEntries-of es h.1)

  pub FilledEntries-find :
      (b : ℕ) {s : Slot V} (es : Entries (Slot V))
      → FilledEntries es
      → find b es ≡ some s
      → Filled s
  unfolding find
  FilledEntries-find b [] w h = absurd (none≢some h)
  FilledEntries-find b {s} ((k, c) ∷ es) w h = elim (Bool-cases (k == b)) [
    | inl same ↦ let q = some_inj (rw same at h) in subst Filled q w.0
    | inr other ↦ FilledEntries-find b es w.1 (rw other at h)
  ]

  FilledEntries-insert :
      (b : ℕ) (s : Slot V) (es : Entries (Slot V))
      → Filled s
      → FilledEntries es
      → FilledEntries (insert b s es)
  unfolding insert
  FilledEntries-insert b s [] w h = (w, tt)
  FilledEntries-insert b s ((k, c) ∷ es) w h = elim (Bool-cases (ltb k b)) [
    | inl below ↦ rw below (h.0, FilledEntries-insert b s es w h.1)
    | inr here ↦ rw here (w, h)
  ]

  FilledEntries-replace :
      (b : ℕ) (s : Slot V) (es : Entries (Slot V))
      → Filled s
      → FilledEntries es
      → FilledEntries (replace b s es)
  unfolding replace
  FilledEntries-replace b s [] w h = tt
  FilledEntries-replace b s ((k, c) ∷ es) w h = elim (Bool-cases (k == b)) [
    | inl same ↦ rw same (w, h.1)
    | inr other ↦ rw other (h.0, FilledEntries-replace b s es w h.1)
  ]

  FilledEntries-remove :
      (b : ℕ) (es : Entries (Slot V)) → FilledEntries es → FilledEntries (remove b es)
  unfolding remove
  FilledEntries-remove b [] h = tt
  FilledEntries-remove b ((k, c) ∷ es) h = elim (Bool-cases (k == b)) [
    | inl same ↦ rw same h.1
    | inr other ↦ rw other (h.0, FilledEntries-remove b es h.1)
  ]

  -- Only the last write at a byte counts.
  replace-replace :
      (b : ℕ) (s t : Slot V) (es : Entries (Slot V)) → replace b t (replace b s es) ≡ replace b t es
  unfolding replace
  replace-replace b s t [] = refl
  replace-replace b s t ((k, c) ∷ es) = ground (arith, replace-replace b s t es)

  remove-replace :
      (b : ℕ) (s : Slot V) (es : Entries (Slot V)) → remove b (replace b s es) ≡ remove b es
  unfolding replace remove
  remove-replace b s [] = refl
  remove-replace b s ((k, c) ∷ es) = ground (arith, remove-replace b s es)

  occupied :
      (ex : Option (Leaf V)) (es : Entries (Slot V))
      → 0 < length es + to_nat (has_exact ex)
      → Occupied ex es
  occupied (some l) es h = tt
  occupied none [] h = absurd (omega arith)
  occupied none (e ∷ es) h = tt

  Occupied-length :
      (es fs : Entries (Slot V)) (ex : Option (Leaf V))
      → length es ≡ length fs
      → Occupied ex es
      → Occupied ex fs
  Occupied-length es fs (some l) h w = tt
  Occupied-length [] fs none h w = absurd w
  Occupied-length (e ∷ es) [] none h w = absurd (omega (arith, h))
  Occupied-length (e ∷ es) (f ∷ fs) none h w = tt

  found-Occupied :
      (b : ℕ) {s : Slot V} (ex : Option (Leaf V)) (es : Entries (Slot V))
      → find b es ≡ some s
      → Occupied ex es
  unfolding find
  found-Occupied b (some l) es h = tt
  found-Occupied b none [] h = absurd (none≢some h)
  found-Occupied b none (e ∷ es) h = tt

  -- The children of a node have no empty node.
  abbrev pub Kids : Node V → Type 0
  Kids n = FilledEntries (entries n)

  pub FilledNode-Kids : (n : Node V) → FilledNode n → Kids n
  FilledNode-Kids (node ty p ex cs) w = FilledAll-entries cs w.1

  pub Kids-Filled : (n : Node V) → Occupied (exact_leaf n) (entries n) → Kids n → FilledNode n
  Kids-Filled (node ty p ex cs) o k = (o, back cs k)
    where
      back : (cs : Children V) → FilledEntries (to_entries cs) → FilledAll cs
      back nil h = tt
      back (cons b s cs) h = (h.0, back cs h.1)

  pub insert_child-Filled :
      (b : ℕ) (s : Slot V) (n : Node V) → Kids n → Filled s → FilledNode (insert_child b s n)
  unfolding insert_child
  insert_child-Filled b s (node ty p ex cs) k w = (
    rw (to_entries-of_entries (insert b s (to_entries cs))) (some_entry b s ex (to_entries cs)),
    FilledEntries-of (insert b s (to_entries cs)) (FilledEntries-insert b s (to_entries cs) w k),
  )
    where
      some_entry :
          (b : ℕ) (s : Slot V) (ex : Option (Leaf V)) (es : Entries (Slot V))
          → Occupied ex (insert b s es)
      some_entry b s ex es = occupied ex (insert b s es) (omega (arith, length-insert b s es))

  pub replace_child-Filled :
      (b : ℕ) (s : Slot V) {c : Slot V} (n : Node V)
      → find_child b n ≡ some c
      → Kids n
      → Filled s
      → FilledNode (replace_child b s n)
  unfolding replace_child find_child
  replace_child-Filled b s {c} (node ty p ex cs) h k w = (
    rw (to_entries-of_entries (replace b s (to_entries cs))) (
        Occupied-length (to_entries cs) (replace b s (to_entries cs)) ex
          (sym (length-replace b s (to_entries cs)))
          (found-Occupied b {s = c} ex (to_entries cs) h)),
    FilledEntries-of (replace b s (to_entries cs)) (FilledEntries-replace b s (to_entries cs) w k),
  )

  pub remove_child-Kids : (b : ℕ) (n : Node V) → Kids n → Kids (remove_child b n)
  unfolding remove_child
  remove_child-Kids b (node ty p ex cs) k =
      rw (to_entries-of_entries (remove b (to_entries cs)))
        (FilledEntries-remove b (to_entries cs) k)

  pub replace_child_twice :
      (b : ℕ) (s t : Slot V) (n : Node V)
      → replace_child b t (replace_child b s n) ≡ replace_child b t n
  unfolding replace_child
  replace_child_twice b s t (node ty p ex cs) =
      ap (λ es. node ty p ex (of_entries (replace b t es)))
        (to_entries-of_entries (replace b s (to_entries cs)))
      ∙ ap (λ es. node ty p ex (of_entries es)) (replace-replace b s t (to_entries cs))

  pub remove_child-replace_child :
      (b : ℕ) (s : Slot V) (n : Node V) → remove_child b (replace_child b s n) ≡ remove_child b n
  unfolding replace_child remove_child
  remove_child-replace_child b s (node ty p ex cs) =
      ap (λ es. node ty p ex (of_entries (remove b es)))
        (to_entries-of_entries (replace b s (to_entries cs)))
      ∙ ap (λ es. node ty p ex (of_entries es)) (remove-replace b s (to_entries cs))

  -- A node that nothing was taken from and that is not reported as empty.
  pub emptied_by-Filled : (n : Node V) → emptied_by nothing n ≡ false → Kids n → FilledNode n
  unfolding emptied_by
  emptied_by-Filled (node ty p none nil) e k = absurd (false≢true (sym e))
  emptied_by-Filled (node ty p none (cons b s cs)) e k =
      Kids-Filled (node ty p none (cons b s cs)) tt k
  emptied_by-Filled (node ty p (some l) cs) e k = Kids-Filled (node ty p (some l) cs) tt k

  pub unlink_if_empty-Filled : (n : Node V) → Kids n → Filled (unlink_if_empty n)
  unfolding unlink_if_empty
  unlink_if_empty-Filled n k = elim (Bool-cases (emptied_by nothing n)) [
    | inl empty ↦ rw empty tt
    | inr kept ↦ rw kept (emptied_by-Filled n kept k)
  ]

  -- The exact leaf goes from a node that keeps another entry.
  pub exact_out-Filled :
      (n : Node V) → emptied_by exact n ≡ false → Kids n → FilledNode (take_out exact n)
  unfolding emptied_by take_out set_exact_leaf
  exact_out-Filled (node ty p ex nil) e k = absurd (gone ex e)
    where
      gone : (ex : Option (Leaf V)) → emptied_by exact (node ty p ex nil) ≡ false → ⊥
      gone none e = false≢true (sym e)
      gone (some l) e = false≢true (sym e)
  exact_out-Filled (node ty p ex (cons b s cs)) e k =
      Kids-Filled (node ty p none (cons b s cs)) tt k

  -- A child goes from a node that keeps another entry.
  pub child_out-Filled :
      (b : ℕ) {c : Slot V} (n : Node V)
      → find_child b n ≡ some c
      → emptied_by (child b) n ≡ false
      → Kids n
      → FilledNode (take_out (child b) n)
  unfolding emptied_by take_out remove_child find_child
  child_out-Filled b {c} (node ty p ex cs) h e k =
      let r = remove b (to_entries cs) in
      Kids-Filled (node ty p ex (of_entries r))
        (rw (to_entries-of_entries r)
          (occupied ex r (left ex e (length-remove b {old = c} (to_entries cs) h))))
        (rw (to_entries-of_entries r) (FilledEntries-remove b (to_entries cs) k))
    where
      left :
          (ex : Option (Leaf V))
          → emptied_by (child b) (node ty p ex cs) ≡ false
          → suc (length (remove b (to_entries cs))) ≡ length (to_entries cs)
          → 0 < length (remove b (to_entries cs)) + to_nat (has_exact ex)
      left none e q = ground arith
      left (some l) e q = omega arith
