-- ===== src/Tree/RemoveLaws.antt =====
-- The remove of a whole tree, and with the insert.
use artmap.Prelude.{
  suc, ◌≡◌, refl, sym, ap, ◌∙◌, inl, inr, Option, none, some, [], length, if◌then◌else◌, Bool-cases,
  some_inj, none≢some, arith,
}
use mathlib.Core.Path.{subst}
use artmap.Prelude.Bytes.{Key, bytes_eq, bytes_eq_refl, bytes_eq_sound}
use artmap.Tree.{Leaf, Slot, null, leaf, inner}
use artmap.Tree.Read.{get_slot, get}
use artmap.Tree.Write.{Mode, Done, insert_with, inserted}
use artmap.Tree.Remove.{Removed, remove_slot, finish, finished, remove_confirmed, remove}
use artmap.Tree.Wf.{IsBytes, Wf, IsTree}
use artmap.Tree.Stands.{Stands-root}
use artmap.Tree.RemoveStep.{NullOrWf, dropped, Gone, Result, of_key, always}
use artmap.Tree.Removes.{remove_slot-Result}
use artmap.Tree.InsertLeaf.{holder}
use artmap.Tree.InsertBefore.{outcome_of}
use artmap.Tree.Laws.{get-insert, insert-IsTree, insert-outcome}
use artmap.Tree.FollowUp.{unlink_emptied-Same}
use artmap.Tree.Filled.{Filled}
use artmap.Tree.RemoveFills.{Fills, remove_slot-Dues, finished-Fills}

module _ {ℓ} {V : Type ℓ} where
  -- What a remove returns and what it leaves to read: nothing for an absent key, and else the leaf
  -- that a lookup found, in a tree that has every other key as before.
  abbrev pub Dropped : Key → Slot V → Option (Removed V) → Type ℓ
  Dropped key root none = get key root ≡ none
  Dropped key root (some d) =
      (get key root ≡ some d.taken_leaf)
      × IsTree d.slot
      × ((k : Key) → get k d.slot ≡ dropped key (λ j. get j root) k)

  NullOrWf-IsTree : (s : Slot V) → NullOrWf [] s → IsTree s
  NullOrWf-IsTree null w = tt
  NullOrWf-IsTree (leaf l) w = w
  NullOrWf-IsTree (inner n) w = w

  -- The follow-up, if there is one, keeps what the remove did.
  finish-Dropped :
      (key : Key) (root : Slot V) (d : Removed V)
      → Gone key [] 0 root d
      → Dropped key root (some (finish key d))
  unfolding finish get
  finish-Dropped key root d g = elim (Bool-cases d.follow_up) [
    | inr done ↦ rw done (
      g.was (suc (length key)) (omega arith),
      NullOrWf-IsTree d.slot g.keeps,
      λ k. g.reads (suc (length k)) k (Stands-root k) (omega arith),
    )
    | inl more ↦
        let u = unlink_emptied-Same (suc (length key)) key 0 [] d.slot g.keeps in
        rw more (
          g.was (suc (length key)) (omega arith),
          NullOrWf-IsTree _ u.keeps,
          λ k.
              u.reads (suc (length k)) k ∙ g.reads (suc (length k)) k (Stands-root k) (omega arith),
        )
  ]

  finished-Dropped :
      (key : Key) (root : Slot V) (o : Option (Removed V))
      → Result key [] 0 root o
      → Dropped key root (finished key o)
  unfolding get finished
  finished-Dropped key root none r = r (suc (length key)) (omega arith)
  finished-Dropped key root (some d) r = finish-Dropped key root d r

  Dropped-Wf : (key : Key) (s : Slot V) → Wf [] s → Dropped key s (remove key s)
  unfolding remove remove_confirmed
  Dropped-Wf key s w =
      finished-Dropped key s (remove_slot (suc (length key)) key (of_key key) (always key) 0 s)
        (remove_slot-Result key (suc (length key)) 0 [] s w (Stands-root key) (omega arith))

  get-nothing : (key : Key) → get {V = V} key null ≡ none
  unfolding get get_slot
  get-nothing key = refl

  -- The lookups around a remove on a well-formed tree.
  pub remove-Dropped :
      (key : Key) (root : Slot V) → IsTree root → Dropped key root (remove key root)
  unfolding remove remove_confirmed remove_slot finished
  remove-Dropped key null w = get-nothing key
  remove-Dropped key (leaf l) w = Dropped-Wf key (leaf l) w
  remove-Dropped key (inner n) w = Dropped-Wf key (inner n) w

  -- What a remove must return and leave: the same, in a tree without an empty inner node.
  abbrev pub Removes : Key → Slot V → Option (Removed V) → Type ℓ
  Removes key root none = get key root ≡ none
  Removes key root (some d) =
      (get key root ≡ some d.taken_leaf)
      × IsTree d.slot
      × Filled d.slot
      × ((k : Key) → get k d.slot ≡ dropped key (λ j. get j root) k)

  Dropped-Fills :
      (key : Key) (root : Slot V) (o : Option (Removed V))
      → Dropped key root o
      → Fills o
      → Removes key root o
  Dropped-Fills key root none g w = g
  Dropped-Fills key root (some d) g w = (g.0, g.1, w, g.2)

  remove-Fills : (key : Key) (root : Slot V) → Filled root → Fills (remove key root)
  unfolding remove remove_confirmed
  remove-Fills key root w =
      finished-Fills key (of_key key) (always key)
        (remove_slot (suc (length key)) key (of_key key) (always key) 0 root)
        (remove_slot-Dues key (of_key key) (always key) (suc (length key)) 0 root w)

  -- A remove on a well-formed tree without an empty inner node returns nothing only for a key that
  -- a lookup does not find. Else it returns the leaf that the lookup found, the tree that it leaves,
  -- with the follow-up done, is well formed and has no empty inner node, the key is not found in it,
  -- and every other key reads as before.
  pub remove-Removes :
      (key : Key) (root : Slot V) → IsTree root → Filled root → Removes key root (remove key root)
  remove-Removes key root w v =
      Dropped-Fills key root (remove key root) (remove-Dropped key root w) (remove-Fills key root v)

  -- A remove after an insert of a key made of bytes that was absent, in a well-formed tree, finds the new leaf,
  -- and every lookup in the tree that it leaves reads as before the insert.
  pub remove-insert :
      (mode : Mode) (new : Leaf V) (root : Slot V) {d : Done V}
      → IsTree root
      → IsBytes new.key
      → get new.key root ≡ none
      → insert_with mode new root ≡ some d
      → (r : Removed V) × (remove new.key d.slot ≡ some r)
        × (r.taken_leaf ≡ new)
        × ((k : Key) → get k r.slot ≡ get k root)
  remove-insert mode new root {d} w bn absent h =
      by_result (remove new.key d.slot) refl (remove-Dropped new.key d.slot tree)
    where
      tree : IsTree d.slot
      tree =
          let (d', h', t) = insert-IsTree mode new root w bn in
          subst (λ x. IsTree x.slot) (some_inj (sym h' ∙ h)) t

      came : d.outcome ≡ inserted
      came = insert-outcome mode new root w h ∙ ap (outcome_of mode) absent

      found : get new.key d.slot ≡ some new
      found =
          get-insert mode new new.key root w h
          ∙ ap (λ b. if b then some (holder new d.outcome) else get new.key root)
              (bytes_eq_refl new.key)
          ∙ ap (λ o. some (holder new o)) came

      others : (k : Key) → dropped new.key (λ j. get j d.slot) k ≡ get k root
      others k = elim (Bool-cases (bytes_eq new.key k)) [
        | inl same ↦ rw same (sym absent ∙ ap (λ j. get j root) (bytes_eq_sound new.key k same))
        | inr other ↦ rw other (
            get-insert mode new k root w h
            ∙ ap (λ b. if b then some (holder new d.outcome) else get k root) other)
      ]

      by_result :
          (o : Option (Removed V))
          → remove new.key d.slot ≡ o
          → Dropped new.key d.slot o
          → (r : Removed V) × (remove new.key d.slot ≡ some r)
            × (r.taken_leaf ≡ new)
            × ((k : Key) → get k r.slot ≡ get k root)
      by_result none e r = absurd (none≢some (sym r ∙ found))
      by_result (some r) e g = (r, e, sym (some_inj (sym found ∙ g.0)), λ k. g.2 k ∙ others k)
