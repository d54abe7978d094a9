-- ===== src/Tree/InOrder.antt =====
-- Where the leaves of a well-formed tree lie: their paths, their order, and the lookups among them.
use artmap.Prelude.{
  ℕ, ◌<◌, ◌≡◌, refl, ap, sym, ◌∙◌, false, inl, inr, Option, none, some, List, [], ◌∷◌, ◌++◌, ◌==◌,
  Bool-cases, arith,
}
use mathlib.Core.Path.{subst}
use mathlib.Core.List.{append_assoc, append-nil}
use artmap.Prelude.Bytes.{Key, bytes_eq, bytes_eq-append}
use artmap.Prelude.Entries.{Above, IsSorted, find}
use artmap.Prelude.Order.{key_lt, key_lt-append, key_lt-bytes, key_lt-longer}
use artmap.Tree.{Leaf, Slot, null, leaf, inner, node, Children, nil, cons, to_entries}
use artmap.Tree.Wf.{Wf, WfAll}
use artmap.Tree.Leaves.{
  leaves, child_leaves, Every, Every-append, Every-map, Before, Ascending, Ascending-append, look,
  look-none, look-append, look-append_none,
}

module _ {ℓ} {V : Type ℓ} where
  abbrev pub Under : Key → Leaf V → Type 0
  Under path l = (rest : Key) × (l.key ≡ path ++ rest)

  -- behind a path, at a byte above `b`
  abbrev pub Beyond : Key → ℕ → Leaf V → Type 0
  Beyond path b l = (c : ℕ) × (rest : Key) × (l.key ≡ path ++ c ∷ rest) × (b < c)

  abbrev pub Longer : Key → Leaf V → Type 0
  Longer path l = (c : ℕ) × (rest : Key) × (l.key ≡ path ++ c ∷ rest)

  pub Under-at :
      (path : Key) (b : ℕ) (l : Leaf V)
      → Under (path ++ b ∷ []) l
      → (rest : Key) × (l.key ≡ path ++ b ∷ rest)
  Under-at path b l (rest, e) = (rest, e ∙ append_assoc path (b ∷ []) rest)

  Longer-Under : (path p : Key) (l : Leaf V) → Longer (path ++ p) l → Under path l
  Longer-Under path p l (c, rest, e) = (p ++ c ∷ rest, e ∙ append_assoc path p (c ∷ rest))

mutual
  pub leaves-Under {ℓ} :
      {V : Type ℓ} (path : Key) (s : Slot V) → Wf path s → Every (Under path) (leaves s)
  leaves-Under path null w = absurd w
  leaves-Under path (leaf l) w = ((w.0, w.1), tt)
  leaves-Under path (inner (node ty p none cs)) w =
      Every-map (Longer (path ++ p)) (Under path) (child_leaves cs) (Longer-Under path p)
        (child_leaves-Longer (path ++ p) cs w.5)
  leaves-Under path (inner (node ty p (some l) cs)) w = (
    (p, w.2),
    Every-map (Longer (path ++ p)) (Under path) (child_leaves cs) (Longer-Under path p)
        (child_leaves-Longer (path ++ p) cs w.5),
  )

  pub child_leaves-Longer {ℓ} :
      {V : Type ℓ} (path : Key) (cs : Children V)
      → WfAll path cs
      → Every (Longer path) (child_leaves cs)
  child_leaves-Longer path nil w = tt
  child_leaves-Longer path (cons b s cs) w =
      Every-append (Longer path) (leaves s) (child_leaves cs)
        (Every-map (Under (path ++ b ∷ [])) (Longer path) (leaves s)
          (λ l u. let (rest, e) = Under-at path b l u in (b, rest, e))
          (leaves-Under (path ++ b ∷ []) s w.1))
        (child_leaves-Longer path cs w.2)

module _ {ℓ} {V : Type ℓ} where
  pub child_leaves-Beyond :
      (path : Key) (b : ℕ) (cs : Children V)
      → WfAll path cs
      → Above b (to_entries cs)
      → Every (Beyond path b) (child_leaves cs)
  child_leaves-Beyond path b nil w a = tt
  child_leaves-Beyond path b (cons c s cs) w a =
      Every-append (Beyond path b) (leaves s) (child_leaves cs)
        (Every-map (Under (path ++ c ∷ [])) (Beyond path b) (leaves s)
          (λ l u. let (rest, e) = Under-at path c l u in (c, rest, e, a.0))
          (leaves-Under (path ++ c ∷ []) s w.1))
        (child_leaves-Beyond path b cs w.2 a.1)

  Before-Longer : (l m : Leaf V) → Longer l.key m → Before l m
  Before-Longer l m (c, rest, e) =
      ap (key_lt l.key) e
      ∙ ap (λ k. key_lt k (l.key ++ c ∷ rest)) (sym (append-nil l.key))
      ∙ key_lt-append l.key [] (c ∷ rest)
      ∙ key_lt-longer c rest

  Before-Beyond :
      (path : Key) (b : ℕ) (l m : Leaf V) → Under (path ++ b ∷ []) l → Beyond path b m → Before l m
  Before-Beyond path b l m u (c, rest, e, lt) =
      let (r, h) = Under-at path b l u in
      ap (λ k. key_lt k m.key) h
      ∙ ap (key_lt (path ++ b ∷ r)) e
      ∙ key_lt-append path (b ∷ r) (c ∷ rest)
      ∙ key_lt-bytes b c r rest lt

mutual
  -- The leaves of a well-formed tree come in strictly ascending order of their keys.
  pub leaves-Ascending {ℓ} :
      {V : Type ℓ} (path : Key) (s : Slot V) → Wf path s → Ascending (leaves s)
  leaves-Ascending path null w = absurd w
  leaves-Ascending path (leaf l) w = (tt, tt)
  leaves-Ascending path (inner (node ty p none cs)) w =
      child_leaves-Ascending (path ++ p) cs w.5 w.3
  leaves-Ascending path (inner (node ty p (some l) cs)) w = (
    Every-map (Longer (path ++ p)) (Before l) (child_leaves cs)
        (λ m g. Before-Longer l m (subst (λ k. Longer k m) (sym w.2) g))
        (child_leaves-Longer (path ++ p) cs w.5),
    child_leaves-Ascending (path ++ p) cs w.5 w.3,
  )

  child_leaves-Ascending {ℓ} :
      {V : Type ℓ} (path : Key) (cs : Children V)
      → WfAll path cs
      → IsSorted (to_entries cs)
      → Ascending (child_leaves cs)
  child_leaves-Ascending path nil w s = tt
  child_leaves-Ascending path (cons b c cs) w s =
      Ascending-append (leaves c) (child_leaves cs) (leaves-Ascending (path ++ b ∷ []) c w.1)
        (child_leaves-Ascending path cs w.2 s.1)
        (Every-map (Under (path ++ b ∷ [])) (λ l. Every (Before l) (child_leaves cs)) (leaves c)
          (λ l u.
            Every-map (Beyond path b) (Before l) (child_leaves cs) (λ m. Before-Beyond path b l m u)
              (child_leaves-Beyond path b cs w.2 s.0))
          (leaves-Under (path ++ b ∷ []) c w.1))

different_bytes :
    (path : Key) (b c : ℕ) (r s : Key)
    → (b == c) ≡ false
    → bytes_eq (path ++ b ∷ r) (path ++ c ∷ s) ≡ false
unfolding bytes_eq
different_bytes path b c r s h = bytes_eq-append path (b ∷ r) (c ∷ s) ∙ rw h refl

module _ {ℓ} {V : Type ℓ} where
  -- what a key finds in a child
  abbrev pub looked : Key → Option (Slot V) → Option (Leaf V)
  looked key none = none
  looked key (some s) = look key (leaves s)

  look-Under :
      (key path : Key) (b c : ℕ) (below : Key) (ls : List (Leaf V))
      → key ≡ path ++ c ∷ below
      → (b == c) ≡ false
      → Every (Under (path ++ b ∷ [])) ls
      → look key ls ≡ none
  look-Under key path b c below ls k other u = look-none key ls (
      Every-map (Under (path ++ b ∷ [])) (λ l. bytes_eq l.key key ≡ false) ls
        (λ l g.
          let (r, e) = Under-at path b l g in
          ap (λ j. bytes_eq j key) e
          ∙ ap (bytes_eq (path ++ b ∷ r)) k
          ∙ different_bytes path b c r below other)
        u)

  look-Beyond :
      (key path : Key) (b : ℕ) (below : Key) (ls : List (Leaf V))
      → key ≡ path ++ b ∷ below
      → Every (Beyond path b) ls
      → look key ls ≡ none
  look-Beyond key path b below ls k u = look-none key ls (
      Every-map (Beyond path b) (λ l. bytes_eq l.key key ≡ false) ls
        (λ l g.
          let (c, r, e, lt) = g in
          ap (λ j. bytes_eq j key) e
          ∙ ap (bytes_eq (path ++ c ∷ r)) k
          ∙ different_bytes path c b r below (ground arith))
        u)

  -- Among the children, a key is found in the child at its next byte alone.
  pub look-child_leaves :
      (key path : Key) (byte : ℕ) (below : Key) (cs : Children V)
      → key ≡ path ++ byte ∷ below
      → WfAll path cs
      → IsSorted (to_entries cs)
      → look key (child_leaves cs) ≡ looked key (find byte (to_entries cs))
  unfolding find look
  look-child_leaves key path byte below nil k w s = refl
  look-child_leaves key path byte below (cons b c cs) k w s = elim (Bool-cases (b == byte)) [
    | inr other ↦ rw other (
        look-append key (leaves c) (child_leaves cs) (
          look-Under key path b byte below (leaves c) k other (leaves-Under (path ++ b ∷ []) c w.1))
        ∙ look-child_leaves key path byte below cs k w.2 s.1)
    | inl same ↦
        let e : byte ≡ b = ground arith in
        rw same (
          look-append_none key (leaves c) (child_leaves cs) (
            look-Beyond key path b below (child_leaves cs) (k ∙ ap (λ x. path ++ x ∷ below) e)
              (child_leaves-Beyond path b cs w.2 s.0)))
  ]
