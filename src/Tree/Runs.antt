-- ===== src/Tree/Runs.antt =====
-- Runs of inserts and removes, from an empty tree, against the map that they stand for.
use artmap.Prelude.{
  ◌≡◌, refl, sym, ap, ◌∙◌, Option, none, some, List, [], ◌∷◌, if◌then◌else◌, inl, inr, Bool-cases,
}
use artmap.Prelude.Bytes.{Key, bytes_eq, bytes_eq_sound}
use artmap.Tree.{Leaf, Slot, null}
use artmap.Tree.Read.{get}
use artmap.Tree.Write.{Mode, Done, insert_with}
use artmap.Tree.Remove.{Removed, remove}
use artmap.Tree.Wf.{IsBytes, IsTree}
use artmap.Tree.Laws.{updated}
use artmap.Tree.InsertBefore.{outcome_of}
use artmap.Tree.Filled.{Filled}
use artmap.Tree.InsertFills.{insert_with-Filled}
use artmap.Tree.Laws.{get-insert, insert-IsTree, insert-outcome, updated_cong, get-null}
use artmap.Tree.RemoveLaws.{Removes, remove-Removes}

pub data Call {ℓ} (V : Type ℓ) : Type ℓ where
  inserting : Mode → Leaf V → Call V
  removing : Key → Call V

module _ {ℓ} {V : Type ℓ} where
  abbrev after_insert : Option (Done V) → Option (Slot V)
  after_insert none = none
  after_insert (some d) = some d.slot

  -- A remove that finds nothing leaves the tree as it is.
  abbrev after_remove : Slot V → Option (Removed V) → Slot V
  after_remove root none = root
  after_remove root (some d) = d.slot

  abbrev called : Call V → Slot V → Option (Slot V)
  called (inserting mode new) root = after_insert (insert_with mode new root)
  called (removing key) root = some (after_remove root (remove key root))

  abbrev then_called : Call V → Option (Slot V) → Option (Slot V)
  then_called call none = none
  then_called call (some root) = called call root

  -- The tree after a run, the last call first.
  unfoldable pub run_calls : List (Call V) → Option (Slot V)
  unfolding insert_with remove
  run_calls [] = some null
  run_calls (call ∷ calls) = then_called call (run_calls calls)

  -- The map that a run stands for.
  abbrev pub mapped_calls : List (Call V) → Key → Option (Leaf V)
  mapped_calls [] key = none
  mapped_calls (inserting mode new ∷ calls) key =
      updated new (outcome_of mode (mapped_calls calls new.key)) (mapped_calls calls) key
  mapped_calls (removing k ∷ calls) key = if bytes_eq k key then none else mapped_calls calls key

  abbrev pub ByteCalls : List (Call V) → Type 0
  ByteCalls [] = Unit
  ByteCalls (inserting mode new ∷ calls) = IsBytes new.key × ByteCalls calls
  ByteCalls (removing key ∷ calls) = ByteCalls calls

  -- A well-formed tree without an empty inner node, whose lookups are those of a map.
  abbrev pub StandsFor : (Key → Option (Leaf V)) → Slot V → Type ℓ
  StandsFor m root = IsTree root × Filled root × ((key : Key) → get key root ≡ m key)

  inserting-StandsFor :
      (mode : Mode) (new : Leaf V) (m : Key → Option (Leaf V)) (root : Slot V)
      → IsBytes new.key
      → StandsFor m root
      → (s : Slot V) × (after_insert (insert_with mode new root) ≡ some s)
        × StandsFor (updated new (outcome_of mode (m new.key)) m) s
  inserting-StandsFor mode new m root b (w, v, reads) =
      let (d, e, w') = insert-IsTree mode new root w b in
      (
        d.slot,
        ap after_insert e,
        (
          w',
          insert_with-Filled mode new root w v e,
          λ key.
              get-insert mode new key root w e
              ∙ updated_cong new (λ k. get k root) m key
                  (insert-outcome mode new root w e ∙ ap (outcome_of mode) (reads new.key))
                  (reads key),
        ),
      )

  removing-StandsFor :
      (k : Key) (m : Key → Option (Leaf V)) (root : Slot V) (o : Option (Removed V))
      → StandsFor m root
      → Removes k root o
      → StandsFor (λ key. if bytes_eq k key then none else m key) (after_remove root o)
  removing-StandsFor k m root none (w, v, reads) r = (w, v, λ key. absent key)
    where
      absent : (key : Key) → get key root ≡ (if bytes_eq k key then none else m key)
      absent key = elim (Bool-cases (bytes_eq k key)) [
        | inl same ↦ rw same (ap (λ j. get j root) (sym (bytes_eq_sound k key same)) ∙ r)
        | inr other ↦ rw other (reads key)
      ]
  removing-StandsFor k m root (some d) (w, v, reads) (taken, w', v', kept) =
      (w', v', λ key. kept key ∙ ap (λ t. if bytes_eq k key then none else t) (reads key))

  -- Any run of inserts, in either mode and of keys made of bytes, and of removes, in any order from
  -- an empty tree, returns, and leaves a well-formed tree without an empty inner node, whose lookups
  -- are those of the map that the run stands for.
  pub run_calls-mapped_calls :
      (calls : List (Call V))
      → ByteCalls calls
      → (root : Slot V) × (run_calls calls ≡ some root) × StandsFor (mapped_calls calls) root
  unfolding run_calls
  run_calls-mapped_calls [] b = (null, refl, (tt, tt, λ key. get-null key))
  run_calls-mapped_calls (inserting mode new ∷ calls) b =
      let (root, h, g) = run_calls-mapped_calls calls b.1 in
      let (s, e, g') = inserting-StandsFor mode new (mapped_calls calls) root b.0 g in
      (s, ap (then_called (inserting mode new)) h ∙ e, g')
  run_calls-mapped_calls (removing k ∷ calls) b =
      let (root, h, g) = run_calls-mapped_calls calls b in
      (
        after_remove root (remove k root),
        ap (then_called (removing k)) h,
        removing-StandsFor k (mapped_calls calls) root (remove k root) g
            (remove-Removes k root g.0 g.1),
      )
