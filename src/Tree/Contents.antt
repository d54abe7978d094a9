-- ===== src/Tree/Contents.antt =====
-- The leaves of a tree after an insert, a remove, and a run of inserts.
use artmap.Prelude.{
  suc, ◌+◌, ◌≡◌, refl, ap, sym, ◌∙◌, Option, none, some, List, [], length, if◌then◌else◌, some_inj,
}
use mathlib.Core.Path.{subst}
use artmap.Prelude.Bytes.{Key, bytes_eq}
use artmap.Tree.{Leaf, Slot, null, leaf, inner}
use artmap.Tree.Read.{get}
use artmap.Tree.Write.{Mode, Done, insert_with}
use artmap.Tree.Remove.{Removed, remove}
use artmap.Tree.Wf.{IsBytes, IsTree}
use artmap.Tree.InsertLeaf.{holder}
use artmap.Tree.InsertBefore.{outcome_of}
use artmap.Tree.Laws.{get-insert, insert-outcome, insert-IsTree}
use artmap.Tree.RemoveLaws.{Dropped, remove-Dropped}
use artmap.Tree.Leaves.{leaves, Ascending, look}
use artmap.Tree.InOrder.{leaves-Ascending}
use artmap.Tree.Refines.{get-leaves}
use artmap.Tree.Sorted.{
  put, look-put, put-Ascending, length-put, one_more, without, look-without, without-Ascending,
  length-without, look_key, Ascending-unique,
}

module _ {ℓ} {V : Type ℓ} where
  -- The leaves of a well-formed tree, in the order of a walk that takes the exact leaf of a node
  -- before its children, are in strictly ascending order of their keys.
  pub tree-Ascending : (root : Slot V) → IsTree root → Ascending (leaves root)
  tree-Ascending null w = tt
  tree-Ascending (leaf l) w = leaves-Ascending [] (leaf l) w
  tree-Ascending (inner n) w = leaves-Ascending [] (inner n) w

  -- Trees that read alike have the same leaves.
  pub leaves_unique :
      (root : Slot V) (ls : List (Leaf V))
      → IsTree root
      → Ascending ls
      → ((k : Key) → get k root ≡ look k ls)
      → leaves root ≡ ls
  leaves_unique root ls w s h =
      Ascending-unique (leaves root) ls (tree-Ascending root w) s
        (λ k. sym (get-leaves k root w) ∙ h k)

  holder_key :
      (mode : Mode) (new : Leaf V) (o : Option (Leaf V))
      → ((l : Leaf V) → o ≡ some l → l.key ≡ new.key)
      → (holder new (outcome_of mode o)).key ≡ new.key
  holder_key mode new none e = refl
  holder_key Mode.replace new (some old) e = refl
  holder_key Mode.insert_if_absent new (some old) e = e old refl

  module _ (mode : Mode) (new : Leaf V) (root : Slot V) {d : Done V} (w : IsTree root)
      (bn : IsBytes new.key) (h : insert_with mode new root ≡ some d) where
    inserted-IsTree : IsTree d.slot
    inserted-IsTree =
        let (d', h', t) = insert-IsTree mode new root w bn in
        subst (λ x. IsTree x.slot) (some_inj (sym h' ∙ h)) t

    before : d.outcome ≡ outcome_of mode (look new.key (leaves root))
    before = insert-outcome mode new root w h ∙ ap (outcome_of mode) (get-leaves new.key root w)

    held_key : (holder new d.outcome).key ≡ new.key
    held_key =
        ap (λ o. (holder new o).key) before
        ∙ holder_key mode new (look new.key (leaves root)) (λ l e. look_key new.key (leaves root) e)

    -- An insert of a key made of bytes into a well-formed tree is the sorted insert into its leaves: the new leaf, or the
    -- leaf that an insert-if-absent found, takes the place of its key in ascending order.
    pub leaves-insert : leaves d.slot ≡ put (holder new d.outcome) (leaves root)
    leaves-insert =
        leaves_unique d.slot (put (holder new d.outcome) (leaves root)) inserted-IsTree
          (put-Ascending (holder new d.outcome) (leaves root) (tree-Ascending root w))
          (λ k.
            get-insert mode new k root w h
            ∙ ap (λ t. if bytes_eq new.key k then some (holder new d.outcome) else t)
                (get-leaves k root w)
            ∙ ap (λ j. if bytes_eq j k then some (holder new d.outcome) else look k (leaves root))
                (sym held_key)
            ∙ sym (look-put k (holder new d.outcome) (leaves root)))

    -- An insert of a key made of bytes into a well-formed tree adds one leaf if a lookup of its key found nothing, and else
    -- none.
    pub length-insert_with :
        length (leaves d.slot) ≡ length (leaves root) + one_more (get new.key root)
    length-insert_with =
        ap length leaves-insert
        ∙ length-put (holder new d.outcome) (leaves root) (tree-Ascending root w)
        ∙ ap (λ k. length (leaves root) + one_more (look k (leaves root))) held_key
        ∙ ap (λ o. length (leaves root) + one_more o) (sym (get-leaves new.key root w))

  -- A remove that finds its key in a well-formed tree takes the leaf of the key out of its leaves,
  -- and leaves the others in place.
  pub leaves-remove :
      (key : Key) (root : Slot V) {d : Removed V}
      → IsTree root
      → remove key root ≡ some d
      → leaves d.slot ≡ without key (leaves root)
  leaves-remove key root {d} w h =
      let r = subst (Dropped key root) h (remove-Dropped key root w) in
      leaves_unique d.slot (without key (leaves root)) r.1
        (without-Ascending key (leaves root) (tree-Ascending root w))
        (λ k.
          r.2 k
          ∙ ap (λ t. if bytes_eq key k then none else t) (get-leaves k root w)
          ∙ sym (look-without k key (leaves root) (tree-Ascending root w)))

  -- A remove that finds its key in a well-formed tree leaves one leaf less.
  pub length-removed :
      (key : Key) (root : Slot V) {d : Removed V}
      → IsTree root
      → remove key root ≡ some d
      → suc (length (leaves d.slot)) ≡ length (leaves root)
  length-removed key root {d} w h =
      let r = subst (Dropped key root) h (remove-Dropped key root w) in
      ap (λ ls. suc (length ls)) (leaves-remove key root w h)
      ∙ length-without key (leaves root) (sym (get-leaves key root w) ∙ r.0)
