-- ===== src/Tree/Laws.antt =====
-- The insert and the lookup of a whole tree.
use artmap.Prelude.{
  suc, ◌≡◌, ◌⊎◌, refl, sym, ap, ◌∙◌, inl, inr, Option, none, some, List, [], ◌∷◌, length,
  if◌then◌else◌, Bool-cases, some_inj, arith,
}
use mathlib.Core.Path.{subst}
use artmap.Prelude.Bytes.{Key, bytes_eq, bytes_eq_sound}
use artmap.Tree.{Leaf, Slot, null, leaf, inner}
use artmap.Tree.Read.{get_slot, get, conclude}
use artmap.Tree.Write.{Mode, Outcome, inserted, Done, insert_slot, insert_with}
use artmap.Tree.Wf.{IsBytes, Wf, IsTree}
use artmap.Tree.InsertLeaf.{holder, conclude_hit, conclude_miss}
use artmap.Tree.Stands.{Stands-root}
use artmap.Tree.Inserts.{Inserts, insert_slot-Inserts}
use artmap.Tree.Insert.{Inserts-self, Inserts-kept}
use artmap.Tree.InsertKeeps.{Inserts-Wf}
use artmap.Tree.InsertTotal.{Returns, insert_slot-Returns}
use artmap.Tree.InsertBefore.{outcome_of, Inserts-before}

-- What every lookup says after an insert with outcome `o`.
abbrev pub updated {ℓ} :
    {V : Type ℓ} → Leaf V → Outcome V → (Key → Option (Leaf V)) → Key → Option (Leaf V)
updated new o before key = if bytes_eq new.key key then some (holder new o) else before key

module _ {ℓ} {V : Type ℓ} where
  get-leaf : (key : Key) (l : Leaf V) → get key (leaf l) ≡ conclude key l
  unfolding get get_slot
  get-leaf key l = refl

  pub get-null : (key : Key) → get {V = V} key null ≡ none
  unfolding get get_slot
  get-null key = refl

  -- A root that is not null is well formed at the empty path.
  rooted : (s : Slot V) → IsTree s → (s ≡ null) ⊎ Wf [] s
  rooted null w = inl refl
  rooted (leaf l) w = inr w
  rooted (inner n) w = inr w

  unrooted : (s : Slot V) → Wf [] s → IsTree s
  unrooted null w = absurd w
  unrooted (leaf l) w = w
  unrooted (inner n) w = w

  module _ (mode : Mode) (new : Leaf V) where
    abbrev first : Done V
    first = record { slot = leaf new; outcome = inserted; allocs = [] }

    insert_null : insert_with mode new null ≡ some first
    unfolding insert_with insert_slot
    insert_null = refl

    insert_inner :
        {d : Done V} (s : Slot V) → insert_with mode new s ≡ some d → Inserts mode new 0 s d
    unfolding insert_with
    insert_inner {d} s h = insert_slot-Inserts mode new (suc (length new.key)) 0 s d h

    at_first : {d : Done V} {s : Slot V} → s ≡ null → insert_with mode new s ≡ some d → first ≡ d
    at_first e h = some_inj (sym (ap (insert_with mode new) e ∙ insert_null) ∙ h)

    get-first : (key : Key) → get key (leaf new) ≡ updated new inserted (λ k. get k null) key
    get-first key = elim (Bool-cases (bytes_eq new.key key)) [
      | inl same ↦ rw same (get-leaf key new ∙ conclude_hit key new same)
      | inr other ↦ rw other (get-leaf key new ∙ conclude_miss key new other ∙ sym (get-null key))
    ]

    get-inner :
        {d : Done V} (key : Key) (s : Slot V)
        → Wf [] s
        → Inserts mode new 0 s d
        → get key d.slot ≡ updated new d.outcome (λ k. get k s) key
    unfolding get
    get-inner {d} key s w i = elim (Bool-cases (bytes_eq new.key key)) [
      | inl same ↦ rw same (
          subst (λ k. get_slot (suc (length k)) k 0 d.slot ≡ some (holder new d.outcome))
            (bytes_eq_sound new.key key same)
            (Inserts-self mode new (suc (length new.key)) [] i w (Stands-root new.key)
              (omega arith)))
      | inr other ↦ rw other (
          Inserts-kept mode new (suc (length key)) key [] i w (Stands-root new.key)
            (Stands-root key) other (omega arith))
    ]

    -- After an insert into a well-formed tree, the key has the new leaf, or the leaf that an
    -- insert-if-absent found, and every other key reads as before.
    pub get-insert :
        (key : Key) (root : Slot V) {d : Done V}
        → IsTree root
        → insert_with mode new root ≡ some d
        → get key d.slot ≡ updated new d.outcome (λ k. get k root) key
    get-insert key root {d} w h = elim (rooted root w) [
      | inr wf ↦ get-inner key root wf (insert_inner root h)
      | inl e ↦
          ap (λ t. get key t.slot) (sym (at_first e h))
          ∙ get-first key
          ∙ ap (λ t. updated new t.outcome (λ k. get k null) key) (at_first e h)
          ∙ ap (λ s. updated new d.outcome (λ k. get k s) key) (sym e)
    ]

    -- The outcome of an insert into a well-formed tree is decided by what a lookup of the key said
    -- before it: `inserted` for nothing, and otherwise the leaf that was there, as replaced or as
    -- existing by the mode.
    pub insert-outcome :
        (root : Slot V) {d : Done V}
        → IsTree root
        → insert_with mode new root ≡ some d
        → d.outcome ≡ outcome_of mode (get new.key root)
    unfolding get
    insert-outcome root {d} w h = elim (rooted root w) [
      | inr wf ↦
          Inserts-before mode new (suc (length new.key)) [] (insert_inner root h) wf
            (Stands-root new.key) (omega arith)
      | inl e ↦
          ap (λ t. t.outcome) (sym (at_first e h))
          ∙ sym (ap (outcome_of mode) (ap (λ s. get new.key s) e ∙ get-null new.key))
    ]

    Returns-Wf : (s : Slot V) → Wf [] s → IsBytes new.key → Returns (insert_with mode new s)
    unfolding insert_with
    Returns-Wf s w bn =
        insert_slot-Returns mode new (suc (length new.key)) 0 [] s w (Stands-root new.key) bn
          (omega arith)

    -- An insert of a key made of bytes into a well-formed tree returns: the fuel is enough, the
    -- grow path never meets a full `Node256`, and the new tree is well formed.
    pub insert-IsTree :
        (root : Slot V)
        → IsTree root
        → IsBytes new.key
        → (d : Done V) × (insert_with mode new root ≡ some d) × IsTree d.slot
    insert-IsTree null w bn = (first, insert_null, (new.key, refl, bn))
    insert-IsTree (leaf e) w bn =
        let (d, h) = Returns-Wf (leaf e) w bn in
        (
          d,
          h,
          unrooted d.slot
              (Inserts-Wf mode new [] (insert_inner (leaf e) h) w (Stands-root new.key) bn),
        )
    insert-IsTree (inner n) w bn =
        let (d, h) = Returns-Wf (inner n) w bn in
        (
          d,
          h,
          unrooted d.slot
              (Inserts-Wf mode new [] (insert_inner (inner n) h) w (Stands-root new.key) bn),
        )

  -- A run of inserts from an empty tree, the last one first.
  unfoldable pub insert_all : List (Mode × Leaf V) → Option (Slot V)
  unfolding insert_with
  insert_all [] = some null
  insert_all ((mode, new) ∷ ops) = elim (insert_all ops) [
    | none ↦ none
    | some root ↦ elim (insert_with mode new root) [ none ↦ none | some d ↦ some d.slot ]
  ]

  -- The map that a run of inserts stands for.
  abbrev pub mapped : List (Mode × Leaf V) → Key → Option (Leaf V)
  mapped [] key = none
  mapped ((mode, new) ∷ ops) key =
      updated new (outcome_of mode (mapped ops new.key)) (mapped ops) key

  abbrev pub ByteKeys : List (Mode × Leaf V) → Type 0
  ByteKeys [] = Unit
  ByteKeys ((mode, new) ∷ ops) = IsBytes new.key × ByteKeys ops

  insert_all_step :
      (mode : Mode) (new : Leaf V) (ops : List (Mode × Leaf V)) {root : Slot V} {d : Done V}
      → insert_all ops ≡ some root
      → insert_with mode new root ≡ some d
      → insert_all ((mode, new) ∷ ops) ≡ some d.slot
  unfolding insert_all
  insert_all_step mode new ops h e = rw (h, e)

  pub updated_cong :
      (new : Leaf V) {o o' : Outcome V} (f g : Key → Option (Leaf V)) (key : Key)
      → o ≡ o'
      → f key ≡ g key
      → updated new o f key ≡ updated new o' g key
  updated_cong new {o} {o'} f g key e h =
      ap (λ b. if bytes_eq new.key key then some (holder new b) else f key) e
      ∙ ap (λ t. if bytes_eq new.key key then some (holder new o') else t) h

  -- Any run of inserts, in either mode, of keys made of bytes builds a well-formed tree, whose
  -- lookups are those of the map that the run stands for.
  pub insert_all-mapped :
      (ops : List (Mode × Leaf V))
      → ByteKeys ops
      → (root : Slot V) × (insert_all ops ≡ some root)
        × IsTree root
        × ((key : Key) → get key root ≡ mapped ops key)
  unfolding insert_all
  insert_all-mapped [] b = (null, refl, tt, λ key. get-null key)
  insert_all-mapped ((mode, new) ∷ ops) b =
      let (root, h, w, reads) = insert_all-mapped ops b.1 in
      let (d, e, w') = insert-IsTree mode new root w b.0 in
      (
        d.slot,
        insert_all_step mode new ops h e,
        w',
        λ key.
            get-insert mode new key root w e
            ∙ updated_cong new (λ k. get k root) (mapped ops) key
                (insert-outcome mode new root w e ∙ ap (outcome_of mode) (reads new.key))
                (reads key),
      )
