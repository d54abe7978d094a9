-- ===== src/Tree/Wf.antt =====
-- Well-formed trees, as a predicate: what `validate` of src/raw/walk.rs checks at quiescence of
-- prefixes, of the order and number of the children, and of the keys. That no inner node is empty,
-- which it asserts as well, is `Filled` of Tree/Filled. Its checks of latches, of removed marks and
-- of the length counter have no state here.
use artmap.Prelude.{
  ℕ, zero, suc, drop, take, get_or, ◌≤◌, ◌<◌, ◌≡◌, Option, none, some, [], ◌∷◌, ◌++◌, length, arith,
  ◌==◌, ltb, inl, inr, Bool-cases, some_inj, none≢some,
}
use mathlib.Core.Path.{subst}
use artmap.Prelude.Bytes.{Key}
use artmap.Prelude.Entries.{Entries, IsSorted, find, insert, replace, remove}
use artmap.Tree.{
  capacity, find_child, max_prefix_len, Leaf, Slot, null, leaf, inner, Node, node, Children, nil,
  cons, to_entries, of_entries, prefix,
}

-- A key is made of bytes.
abbrev pub IsBytes : Key → Type 0
IsBytes [] = Unit
IsBytes (b ∷ key) = (b < 256) × IsBytes key

module _ {ℓ} {V : Type ℓ} where
  -- The key of a leaf continues the path at which it hangs, and is made of bytes.
  abbrev pub Continues : Key → Leaf V → Type 0
  Continues path l = (rest : Key) × (l.key ≡ path ++ rest) × IsBytes l.key

  abbrev pub EndsAt : Key → Option (Leaf V) → Type 0
  EndsAt path none = Unit
  EndsAt path (some l) = l.key ≡ path

abbrev mutual
  pub Wf {ℓ} : {V : Type ℓ} → Key → Slot V → Type 0
  Wf path null = ⊥
  Wf path (leaf l) = Continues path l
  Wf path (inner n) = WfNode path n

  pub WfNode {ℓ} : {V : Type ℓ} → Key → Node V → Type 0
  WfNode path (node ty p ex cs) =
      (length p ≤ max_prefix_len)
      × IsBytes p
      × EndsAt (path ++ p) ex
      × IsSorted (to_entries cs)
      × (length (to_entries cs) ≤ capacity ty)
      × WfAll (path ++ p) cs

  pub WfAll {ℓ} : {V : Type ℓ} → Key → Children V → Type 0
  WfAll path nil = Unit
  WfAll path (cons b s cs) = (b < 256) × Wf (path ++ b ∷ []) s × WfAll path cs

-- The whole tree: empty, or a well-formed slot at the empty path.
abbrev pub IsTree {ℓ} : {V : Type ℓ} → Slot V → Type 0
IsTree null = Unit
IsTree s = Wf [] s

pub IsBytes-drop : (n : ℕ) (key : Key) → IsBytes key → IsBytes (drop n key)
IsBytes-drop zero key h = h
IsBytes-drop (suc n) [] h = tt
IsBytes-drop (suc n) (b ∷ key) h = IsBytes-drop n key h.1

pub IsBytes-take : (n : ℕ) (key : Key) → IsBytes key → IsBytes (take n key)
IsBytes-take zero key h = tt
IsBytes-take (suc n) [] h = tt
IsBytes-take (suc n) (b ∷ key) h = (h.0, IsBytes-take n key h.1)

pub get_or-lt : (n : ℕ) (key : Key) → IsBytes key → n < length key → get_or key n 0 < 256
get_or-lt n [] h lt = absurd (omega arith)
get_or-lt zero (b ∷ key) h lt = h.0
get_or-lt (suc n) (b ∷ key) h lt = get_or-lt n key h.1 (omega arith)

module _ {ℓ} {V : Type ℓ} where
  -- `WfAll` of a list of entries
  abbrev pub WfEntries : Key → Entries (Slot V) → Type 0
  WfEntries path [] = Unit
  WfEntries path ((b, s) ∷ es) = (b < 256) × Wf (path ++ b ∷ []) s × WfEntries path es

  pub WfAll-entries :
      (path : Key) (cs : Children V) → WfAll path cs → WfEntries path (to_entries cs)
  WfAll-entries path nil h = tt
  WfAll-entries path (cons b s cs) h = (h.0, h.1, WfAll-entries path cs h.2)

  pub WfEntries-of :
      (path : Key) (es : Entries (Slot V)) → WfEntries path es → WfAll path (of_entries es)
  WfEntries-of path [] h = tt
  WfEntries-of path ((b, s) ∷ es) h = (h.0, h.1, WfEntries-of path es h.2)

  -- The child found at a byte is well-formed at its path.
  pub WfEntries-find :
      (path : Key) (b : ℕ) {s : Slot V} (es : Entries (Slot V))
      → WfEntries path es
      → find b es ≡ some s
      → (b < 256) × Wf (path ++ b ∷ []) s
  unfolding find
  WfEntries-find path b [] w h = absurd (none≢some h)
  WfEntries-find path b {s} ((k, c) ∷ es) w h = elim (Bool-cases (k == b)) [
    | inr other ↦ WfEntries-find path b es w.2 (rw other at h)
    | inl same ↦
        let e : k ≡ b = ground arith in let q = some_inj (rw same at h) in rw (← e, ← q) (w.0, w.1)
  ]

  pub WfEntries-insert :
      (path : Key) (b : ℕ) (s : Slot V) (es : Entries (Slot V))
      → b < 256
      → Wf (path ++ b ∷ []) s
      → WfEntries path es
      → WfEntries path (insert b s es)
  unfolding insert
  WfEntries-insert path b s [] lt w h = (lt, w, tt)
  WfEntries-insert path b s ((k, c) ∷ es) lt w h = elim (Bool-cases (ltb k b)) [
    | inl below ↦ rw below (h.0, h.1, WfEntries-insert path b s es lt w h.2)
    | inr here ↦ rw here (lt, w, h)
  ]

  pub WfEntries-replace :
      (path : Key) (b : ℕ) (s : Slot V) (es : Entries (Slot V))
      → Wf (path ++ b ∷ []) s
      → WfEntries path es
      → WfEntries path (replace b s es)
  unfolding replace
  WfEntries-replace path b s [] w h = tt
  WfEntries-replace path b s ((k, c) ∷ es) w h = elim (Bool-cases (k == b)) [
    | inr other ↦ rw other (h.0, h.1, WfEntries-replace path b s es w h.2)
    | inl same ↦
        let e : b ≡ k = ground arith in rw same (h.0, subst (λ x. Wf (path ++ x ∷ []) s) e w, h.2)
  ]

  pub WfEntries-remove :
      (path : Key) (b : ℕ) (es : Entries (Slot V))
      → WfEntries path es
      → WfEntries path (remove b es)
  unfolding remove
  WfEntries-remove path b [] h = tt
  WfEntries-remove path b ((k, c) ∷ es) h = elim (Bool-cases (k == b)) [
    | inr other ↦ rw other (h.0, h.1, WfEntries-remove path b es h.2)
    | inl same ↦ rw same h.2
  ]

  pub WfNode-find :
      (path : Key) (b : ℕ) (s : Slot V) (n : Node V)
      → WfNode path n
      → find_child b n ≡ some s
      → (b < 256) × Wf ((path ++ prefix n) ++ b ∷ []) s
  unfolding find_child
  WfNode-find path b s (node ty p ex cs) w h =
      WfEntries-find (path ++ p) b (to_entries cs) (WfAll-entries (path ++ p) cs w.5) h
