-- ===== src/Tree/ShrinkLaws.antt =====
-- `shrink_to_fit` of src/raw/shrink.rs on a whole tree.
use artmap.Prelude.{
  and_left, ℕ, suc, ◌+◌, ◌≤◌, ◌≡◌, refl, ap, sym, ◌∙◌, true, Option, none, some, [], ◌∷◌, ◌++◌,
  length, leb, arith,
}
use mathlib.Core.Path.{subst}
use artmap.Prelude.Bytes.{Key}
use artmap.Prelude.Entries.{Entries, Above, IsSorted}
use artmap.Tree.{
  NodeType, Leaf, Slot, null, leaf, inner, Node, node, Children, nil, cons, to_entries, of_entries,
  to_entries-of_entries,
}
use artmap.Tree.Read.{get}
use artmap.Tree.Wf.{IsBytes, Wf, WfNode, WfAll, WfEntries-of, IsTree}
use artmap.Tree.Copy.{of_entries-to_entries, LiesBelow}
use artmap.Tree.RemoveStep.{NullOrWf}
use artmap.Tree.Leaves.{leaves, node_leaves, child_leaves, look}
use artmap.Tree.Refines.{get-leaves}
use artmap.Tree.Shrink.{settle, fit, fit_children, shrink_to_fit}
use artmap.Tree.Fitted.{
  assert_fitted, children_fitted, Fits, IsBytes-append, many_case, exact_case, leaf_case,
  empty_case,
}
use artmap.Tree.FitMerge.{inner_case}
use artmap.Tree.FitChildren.{
  FitAll, FitAll-nil, FitAll-kept, FitAll-dropped, settle_replaced, settle_removed,
}

several : (k : ℕ) → leb 2 (suc (suc k) + 0) ≡ true
several k = ground arith

several_exact : (k : ℕ) → leb 2 (suc k + 1) ≡ true
several_exact k = ground arith

module _ {ℓ} {V : Type ℓ} where
  -- The fit of a node whose children are fitted.
  fit-Fits :
      (path : Key) (ty : NodeType) (p : Key) (ex : Option (Leaf V)) (cs : Children V)
      → IsBytes path
      → WfNode path (node ty p ex cs)
      → children_fitted cs ≡ true
      → Fits path (inner (node ty p ex cs)) (fit (node ty p ex cs))
  unfolding children_fitted
  fit-Fits path ty p none nil bp w f = empty_case path ty p
  fit-Fits path ty p (some l) nil bp w f = exact_case path ty p l bp w
  fit-Fits path ty p none (cons b null nil) bp w f = absurd w.5.1
  fit-Fits path ty p none (cons b (leaf l) nil) bp w f = leaf_case path ty p b l w
  fit-Fits path ty p none (cons b (inner c) nil) bp w f =
      inner_case path ty p b c w (and_left (assert_fitted (inner c)) true f)
  fit-Fits path ty p none (cons b s (cons b' s' cs)) bp w f =
      many_case path ty p none (cons b s (cons b' s' cs)) (several (length (to_entries cs))) w f
  fit-Fits path ty p (some l) (cons b s cs) bp w f =
      many_case path ty p (some l) (cons b s cs) (several_exact (length (to_entries cs))) w f

  exchanged_leaves :
      (ty : NodeType) (p : Key) (ex : Option (Leaf V)) (cs cs' : Children V)
      → child_leaves cs' ≡ child_leaves cs
      → node_leaves (node ty p ex cs') ≡ node_leaves (node ty p ex cs)
  exchanged_leaves ty p none cs cs' h = h
  exchanged_leaves ty p (some l) cs cs' h = ap (λ t. l ∷ t) h

  lies : (es : Entries (Slot V)) → LiesBelow es []
  lies [] = tt
  lies ((b, s) ∷ es) = tt

  -- The node with its fitted children, then fitted itself.
  node-Fits :
      (path : Key) (ty : NodeType) (p : Key) (ex : Option (Leaf V)) (cs : Children V)
      (es : Entries (Slot V))
      → IsBytes path
      → WfNode path (node ty p ex cs)
      → FitAll (path ++ p) cs es
      → Fits path (inner (node ty p ex cs)) (shrink_to_fit (inner (node ty p ex cs)))
  unfolding shrink_to_fit
  node-Fits path ty p ex cs es bp w g =
      let q =
        fit-Fits path ty p ex (of_entries es) bp
          (
            w.0,
            w.1,
            w.2,
            rw (to_entries-of_entries es) g.sorted,
            rw (to_entries-of_entries es) (omega (arith, g.short, w.4)),
            WfEntries-of (path ++ p) es g.wf,
          )
          g.fitted in
      let run =
        ap (λ t. fit_children cs (node ty p ex t)) (sym (of_entries-to_entries cs))
        ∙ g.runs [] ty p ex (lies (to_entries cs)) in
      subst (λ n. Fits path (inner (node ty p ex cs)) (fit n)) (sym run)
        (record {
          keeps = q.keeps;
          holds = q.holds ∙ exchanged_leaves ty p ex cs (of_entries es) g.holds;
          fitted = q.fitted;
        })

  -- The fit of an inner child, written into its node.
  inner_step :
      (path : Key) (b : ℕ) (c : Node V) (s' : Slot V) (cs : Children V) (es : Entries (Slot V))
      → b ≤ 255
      → Above b (to_entries cs)
      → shrink_to_fit (inner c) ≡ s'
      → FitAll path cs es
      → Fits (path ++ b ∷ []) (inner c) s'
      → (es' : Entries (Slot V)) × FitAll path (cons b (inner c) cs) es'
  unfolding settle
  inner_step path b c null cs es lt a e g f = (
    es,
    FitAll-dropped path b (inner c) null cs es lt a e g f.holds refl
        (λ acc ty p ex h. settle_removed b (inner c) acc (to_entries cs) ty p ex h),
  )
  inner_step path b c (leaf l) cs es lt a e g f = (
    (b, leaf l) ∷ es,
    FitAll-kept path b (inner c) (leaf l) cs es lt a e g f.holds f.keeps f.fitted
        (λ acc ty p ex h. settle_replaced b (inner c) (leaf l) acc (to_entries cs) ty p ex h),
  )
  inner_step path b c (inner m) cs es lt a e g f = (
    (b, inner m) ∷ es,
    FitAll-kept path b (inner c) (inner m) cs es lt a e g f.holds f.keeps f.fitted
        (λ acc ty p ex h. settle_replaced b (inner c) (inner m) acc (to_entries cs) ty p ex h),
  )

  leaf_step :
      (path : Key) (b : ℕ) (l : Leaf V) (cs : Children V) (es : Entries (Slot V))
      → b ≤ 255
      → Above b (to_entries cs)
      → FitAll path cs es
      → Wf (path ++ b ∷ []) (leaf l)
      → (es' : Entries (Slot V)) × FitAll path (cons b (leaf l) cs) es'
  unfolding settle assert_fitted shrink_to_fit
  leaf_step path b l cs es lt a g w = (
    (b, leaf l) ∷ es,
    FitAll-kept path b (leaf l) (leaf l) cs es lt a refl g refl w refl (λ acc ty p ex h. refl),
  )

mutual
  shrink-Fits {ℓ} :
      {V : Type ℓ} (path : Key) (n : Node V)
      → IsBytes path
      → WfNode path n
      → Fits path (inner n) (shrink_to_fit (inner n))
  shrink-Fits path (node ty p ex cs) bp w =
      let (es, g) = children-Fits (path ++ p) cs (IsBytes-append path p bp w.1) w.5 w.3 in
      node-Fits path ty p ex cs es bp w g

  children-Fits {ℓ} :
      {V : Type ℓ} (path : Key) (cs : Children V)
      → IsBytes path
      → WfAll path cs
      → IsSorted (to_entries cs)
      → (es : Entries (Slot V)) × FitAll path cs es
  children-Fits path nil bp w s = ([], FitAll-nil path)
  children-Fits path (cons b null cs) bp w s = absurd w.1
  children-Fits path (cons b (leaf l) cs) bp w s =
      let (es, g) = children-Fits path cs bp w.2 s.1 in
      leaf_step path b l cs es (omega (arith, w.0)) s.0 g w.1
  children-Fits path (cons b (inner c) cs) bp w s =
      let (es, g) = children-Fits path cs bp w.2 s.1 in
      inner_step path b c (shrink_to_fit (inner c)) cs es (omega (arith, w.0)) s.0 refl g
        (shrink-Fits (path ++ b ∷ []) c (IsBytes-append path (b ∷ []) bp (w.0, tt)) w.1)

module _ {ℓ} {V : Type ℓ} where
  root_of : (s : Slot V) → NullOrWf [] s → IsTree s
  root_of null w = tt
  root_of (leaf l) w = w
  root_of (inner n) w = w

  -- The fit of a whole well-formed tree is a well-formed tree with the same leaves, and every node
  -- of it is fitted: it has more than a leaf, is no chain that would fit in one node, and has the
  -- smallest layout for its children.
  pub shrink_to_fit-Fits :
      (root : Slot V)
      → IsTree root
      → IsTree (shrink_to_fit root)
        × (leaves (shrink_to_fit root) ≡ leaves root)
        × (assert_fitted (shrink_to_fit root) ≡ true)
  unfolding shrink_to_fit assert_fitted
  shrink_to_fit-Fits null w = (tt, refl, refl)
  shrink_to_fit-Fits (leaf l) w = (w, refl, refl)
  shrink_to_fit-Fits (inner n) w =
      let f = shrink-Fits [] n tt w in (root_of _ f.keeps, f.holds, f.fitted)

  -- Every lookup in a well-formed tree reads the same before and after the fit of the tree.
  pub get-shrink_to_fit :
      (key : Key) (root : Slot V) → IsTree root → get key (shrink_to_fit root) ≡ get key root
  get-shrink_to_fit key root w =
      let (t, h, f) = shrink_to_fit-Fits root w in
      get-leaves key (shrink_to_fit root) t ∙ ap (look key) h ∙ sym (get-leaves key root w)
