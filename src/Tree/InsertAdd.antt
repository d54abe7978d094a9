-- ===== src/Tree/InsertAdd.antt =====
-- What an insert of a new child does to a node: in place, or in a copy of the next larger type.
use artmap.Prelude.{
  ℕ, suc, ◌≤◌, ◌≡◌, refl, sym, ap, ◌∙◌, true, false, inl, inr, Option, none, some, [], length,
  Bool-cases, some_inj, none≢some, arith,
}
use artmap.Prelude.Entries.{IsSorted}
use artmap.Tree.{
  NodeType, capacity, grown, Leaf, Slot, leaf, inner, Node, node, node_type, entries, is_full,
  find_child, insert_child, retype,
}
use artmap.Tree.Write.{inserted, Done, add_child, in_larger}
use artmap.Tree.NodeReads.{Rewired, insert_child-Rewired}
use artmap.Tree.Copy.{copy_into-fresh}

roomy_grown : (t ty : NodeType) (k : ℕ) → grown t ≡ some ty → k ≤ capacity t → suc k ≤ capacity ty
unfolding grown capacity
roomy_grown t ty k h le = ground arith

module _ {ℓ} {V : Type ℓ} where
  retype-Rewired :
      (byte : ℕ) (s : Slot V) (ty : NodeType) (n : Node V)
      → Rewired byte s n (insert_child byte s (retype ty n))
  unfolding find_child
  retype-Rewired byte s ty (node t p ex cs) =
      let w = insert_child-Rewired byte s (node ty p ex cs) in
      record { same_prefix = w.same_prefix; same_exact = w.same_exact; finds = w.finds }

  pub record Added (new : Leaf V) (byte : ℕ) (n : Node V) (d : Done V) : Type ℓ where
    pub target : NodeType
    pub slot_is : d.slot ≡ inner (insert_child byte (leaf new) (retype target n))
    pub outcome_is : d.outcome ≡ inserted
    pub roomy : suc (length (entries n)) ≤ capacity target

  pub Added-Rewired :
      (new : Leaf V) (byte : ℕ) (n : Node V) (d : Done V) (a : Added new byte n d)
      → Rewired byte (leaf new) n (insert_child byte (leaf new) (retype a.target n))
  Added-Rewired new byte n d a = retype-Rewired byte (leaf new) a.target n

  retype_self : (n : Node V) → retype (node_type n) n ≡ n
  retype_self (node ty p ex cs) = refl

  pub add_child_full :
      (new : Leaf V) (byte : ℕ) (n : Node V)
      → is_full n ≡ true
      → add_child new byte n ≡ in_larger new byte n (grown (node_type n))
  unfolding add_child
  add_child_full new byte n h = rw h

  pub add_child_room :
      (new : Leaf V) (byte : ℕ) (n : Node V)
      → is_full n ≡ false
      → add_child new byte n
        ≡ some (record {
          slot = inner (insert_child byte (leaf new) n);
          outcome = inserted;
          allocs = [];
        })
  unfolding add_child
  add_child_room new byte n h = rw h

  not_full : (n : Node V) → is_full n ≡ false → suc (length (entries n)) ≤ capacity (node_type n)
  unfolding is_full
  not_full n h = ground arith

  larger-Added :
      (new : Leaf V) (byte : ℕ) (n : Node V) {d : Done V} (o : Option NodeType)
      → grown (node_type n) ≡ o
      → IsSorted (entries n)
      → length (entries n) ≤ capacity (node_type n)
      → in_larger new byte n o ≡ some d
      → Added new byte n d
  unfolding in_larger
  larger-Added new byte n none g sorted le h = absurd (none≢some h)
  larger-Added new byte n (some ty) g sorted le h = record {
    target = ty;
    slot_is =
        ap (λ r. r.slot) (sym (some_inj h))
        ∙ ap (λ t. inner (insert_child byte (leaf new) t)) (copy_into-fresh n ty sorted);
    outcome_is = ap (λ r. r.outcome) (sym (some_inj h));
    roomy = roomy_grown (node_type n) ty (length (entries n)) g le;
  }

  -- Both ways to add a child: in place, or in a copy of the next larger type.
  pub add_child-Added :
      (new : Leaf V) (byte : ℕ) (n : Node V) {d : Done V}
      → IsSorted (entries n)
      → length (entries n) ≤ capacity (node_type n)
      → add_child new byte n ≡ some d
      → Added new byte n d
  add_child-Added new byte n {d} sorted le h = elim (Bool-cases (is_full n)) [
    | inl full ↦
        larger-Added new byte n (grown (node_type n)) refl sorted le
          (sym (add_child_full new byte n full) ∙ h)
    | inr room ↦
        let e = some_inj (sym (add_child_room new byte n room) ∙ h) in
        record {
          target = node_type n;
          slot_is =
              ap (λ r. r.slot) (sym e)
              ∙ ap (λ t. inner (insert_child byte (leaf new) t)) (sym (retype_self n));
          outcome_is = ap (λ r. r.outcome) (sym e);
          roomy = not_full n room;
        }
  ]
