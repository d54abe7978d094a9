-- ===== src/Tree/Fitted.antt =====
-- The fit of one node of src/raw/shrink.rs, and `assert_fitted` of its tests.
use artmap.Prelude.{
  and_both, ℕ, ◌+◌, ◌-◌, ◌≤◌, ◌≡◌, refl, ap, sym, ◌∙◌, Bool, true, false, ◌&&◌, inl, inr, Option,
  none, some, [], ◌∷◌, ◌++◌, ◌==◌, ==_refl, length, leb, ltb, Bool-cases, arith,
}
use mathlib.Core.Path.{subst}
use mathlib.Core.List.{append_assoc}
use artmap.Prelude.Bytes.{Key}
use artmap.Tree.{
  NodeType, node4, node16, node48, node256, capacity, fitting, max_prefix_len, Leaf, Slot, null,
  leaf, inner, Node, node, Children, nil, cons, to_entries, node_type, prefix, num_children, retype,
}
use artmap.Tree.Wf.{IsBytes, WfNode}
use artmap.Tree.Copy.{copy_into-fresh}
use artmap.Tree.Remove.{nothing, to_nat, has_exact}
use artmap.Tree.RemoveStep.{NullOrWf}
use artmap.Tree.Leaves.{leaves, node_leaves}
use artmap.Tree.Shrink.{
  rank, Rest, no_entry, one_leaf, one_inner, many, Plan, shrink, rest, plan, replacement, fit,
}

module _ {ℓ} {V : Type ℓ} where
  -- One leaf or none is no node; a single inner child is one that could not be merged; and the
  -- layout is the smallest one.
  unfoldable pub rest_fitted : Node V → Rest V → Bool
  unfolding fitting
  rest_fitted n no_entry = false
  rest_fitted n (one_leaf l) = false
  rest_fitted n (one_inner byte (inner c)) =
      ltb max_prefix_len (length (prefix n) + 1 + length (prefix c))
      && rank (node_type n) == rank node4
  rest_fitted n (one_inner byte s) = false
  rest_fitted n many = rank (node_type n) == rank (fitting (num_children n))

unfoldable mutual
  unfolding rest rest_fitted

  pub assert_fitted {ℓ} : {V : Type ℓ} → Slot V → Bool
  assert_fitted null = true
  assert_fitted (leaf l) = true
  assert_fitted (inner (node ty p ex cs)) =
      rest_fitted (node ty p ex cs) (rest nothing (node ty p ex cs)) && children_fitted cs

  pub children_fitted {ℓ} : {V : Type ℓ} → Children V → Bool
  children_fitted nil = true
  children_fitted (cons b s cs) = assert_fitted s && children_fitted cs

pub capacity-fitting : (k : ℕ) → k ≤ 256 → k ≤ capacity (fitting k)
unfolding capacity fitting
capacity-fitting k h = ground arith

pub fitting_least : (ty : NodeType) (k : ℕ) → k ≤ capacity ty → rank (fitting k) ≤ rank ty
unfolding capacity fitting
fitting_least node4 k h = ground arith
fitting_least node16 k h = ground arith
fitting_least node48 k h = ground arith
fitting_least node256 k h = ground arith

pub capacity_most : (ty : NodeType) → capacity ty ≤ 256
unfolding capacity
capacity_most node4 = omega arith
capacity_most node16 = omega arith
capacity_most node48 = omega arith
capacity_most node256 = omega arith

pub IsBytes-append : (a b : Key) → IsBytes a → IsBytes b → IsBytes (a ++ b)
IsBytes-append [] b h g = g
IsBytes-append (x ∷ a) b h g = (h.0, IsBytes-append a b h.1 g)

pub same_rank : (a b : ℕ) → a ≤ b → ltb a b ≡ false → (b == a) ≡ true
same_rank a b h g = ground arith

module _ {ℓ} {V : Type ℓ} where
  -- What takes the place of a node: well formed or unlinked, with its leaves, and fitted.
  pub record Fits (path : Key) (s s' : Slot V) : Type ℓ where
    pub keeps : NullOrWf path s'
    pub holds : leaves s' ≡ leaves s
    pub fitted : assert_fitted s' ≡ true

  rest_many :
      (ty : NodeType) (p : Key) (ex : Option (Leaf V)) (cs : Children V)
      → leb 2 (length (to_entries cs) + to_nat (has_exact ex)) ≡ true
      → rest nothing (node ty p ex cs) ≡ many
  unfolding rest
  rest_many ty p none cs h =
      let e : leb 2 (length (to_entries cs) + 0 - 0) ≡ true = ground arith in rw e refl
  rest_many ty p (some l) cs h =
      let e : leb 2 (length (to_entries cs) + 1 - 0) ≡ true = ground arith in rw e refl

  pub retype_leaves :
      (ty ty' : NodeType) (p p' : Key) (ex : Option (Leaf V)) (cs : Children V)
      → node_leaves (node ty' p' ex cs) ≡ node_leaves (node ty p ex cs)
  retype_leaves ty ty' p p' none cs = refl
  retype_leaves ty ty' p p' (some l) cs = refl

  pub node_fitted :
      (ty : NodeType) (p : Key) (ex : Option (Leaf V)) (cs : Children V) {r : Rest V}
      → rest nothing (node ty p ex cs) ≡ r
      → rest_fitted (node ty p ex cs) r ≡ true
      → children_fitted cs ≡ true
      → assert_fitted (inner (node ty p ex cs)) ≡ true
  unfolding assert_fitted
  node_fitted ty p ex cs {r} e f cf =
      and_both (rest_fitted (node ty p ex cs) (rest nothing (node ty p ex cs))) (children_fitted cs)
        (ap (rest_fitted (node ty p ex cs)) e ∙ f) cf

  -- the node in another layout, or in its own
  pub retyped-Fits :
      (path : Key) (ty ty' : NodeType) (p : Key) (ex : Option (Leaf V)) (cs : Children V)
      {r : Rest V}
      → WfNode path (node ty p ex cs)
      → length (to_entries cs) ≤ capacity ty'
      → rest nothing (node ty' p ex cs) ≡ r
      → rest_fitted (node ty' p ex cs) r ≡ true
      → children_fitted cs ≡ true
      → Fits path (inner (node ty p ex cs)) (inner (node ty' p ex cs))
  retyped-Fits path ty ty' p ex cs {r} w room e f cf = record {
    keeps = (w.0, w.1, w.2, w.3, room, w.5);
    holds = retype_leaves ty ty' p p ex cs;
    fitted = node_fitted ty' p ex cs {r = r} e f cf;
  }

  pub fit_as :
      (path : Key) (n : Node V) {r : Rest V} {q : Option (Plan V)} {s : Slot V}
      → rest nothing n ≡ r
      → plan n r ≡ q
      → replacement n q ≡ s
      → Fits path (inner n) s
      → Fits path (inner n) (fit n)
  unfolding fit
  fit_as path n {r} {q} {s} e h g f =
      subst (Fits path (inner n))
        (sym (ap (λ t. replacement n (plan n t)) e ∙ ap (replacement n) h ∙ g)) f

  pub shrink_copy :
      (path : Key) (n : Node V) (ty : NodeType)
      → WfNode path n
      → replacement n (some (shrink ty)) ≡ inner (retype ty n)
  unfolding replacement
  shrink_copy path (node t p ex cs) ty w = ap inner (copy_into-fresh (node t p ex cs) ty w.3)

  pub many_case :
      (path : Key) (ty : NodeType) (p : Key) (ex : Option (Leaf V)) (cs : Children V)
      → leb 2 (length (to_entries cs) + to_nat (has_exact ex)) ≡ true
      → WfNode path (node ty p ex cs)
      → children_fitted cs ≡ true
      → Fits path (inner (node ty p ex cs)) (fit (node ty p ex cs))
  unfolding plan rest_fitted
  many_case path ty p ex cs h w cf =
      let n = node ty p ex cs in
      let k = length (to_entries cs) in
      elim (Bool-cases (ltb (rank (fitting k)) (rank ty))) [
        | inl smaller ↦
            fit_as path n {q = some (shrink (fitting k))} (rest_many ty p ex cs h) (rw smaller refl)
              (shrink_copy path n (fitting k) w)
              (retyped-Fits path ty (fitting k) p ex cs w
                (capacity-fitting k (omega (arith, w.4, capacity_most ty)))
                (rest_many (fitting k) p ex cs h) (==_refl (rank (fitting k))) cf)
        | inr least ↦
            fit_as path n {q = none} {s = inner n} (rest_many ty p ex cs h) (rw least refl)
              (unfold replacement in refl)
              (retyped-Fits path ty ty p ex cs w w.4 (rest_many ty p ex cs h)
                (same_rank (rank (fitting k)) (rank ty) (fitting_least ty k w.4) least) cf)
      ]

  pub exact_case :
      (path : Key) (ty : NodeType) (p : Key) (l : Leaf V)
      → IsBytes path
      → WfNode path (node ty p (some l) nil)
      → Fits path (inner (node ty p (some l) nil)) (fit (node ty p (some l) nil))
  unfolding fit rest plan replacement assert_fitted
  exact_case path ty p l bp w = record {
    keeps = (p, w.2, subst IsBytes (sym w.2) (IsBytes-append path p bp w.1));
    holds = refl;
    fitted = refl;
  }

  pub leaf_case :
      (path : Key) (ty : NodeType) (p : Key) (b : ℕ) (l : Leaf V)
      → WfNode path (node ty p none (cons b (leaf l) nil))
      → Fits path
          (inner (node ty p none (cons b (leaf l) nil)))
          (fit (node ty p none (cons b (leaf l) nil)))
  unfolding fit rest plan replacement assert_fitted
  leaf_case path ty p b l w =
      let (r, e, bl) = w.5.1 in
      record {
        keeps =
            (p ++ b ∷ r, e ∙ append_assoc (path ++ p) (b ∷ []) r ∙ append_assoc path p (b ∷ r), bl);
        holds = refl;
        fitted = refl;
      }

  pub empty_case :
      (path : Key) (ty : NodeType) (p : Key)
      → Fits path (inner (node ty p none nil)) (fit (node ty p none nil))
  unfolding fit rest plan replacement assert_fitted
  empty_case path ty p = record { keeps = tt; holds = refl; fitted = refl }
