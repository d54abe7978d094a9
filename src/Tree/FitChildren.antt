-- ===== src/Tree/FitChildren.antt =====
-- The writes of fitted children into their node, of src/raw/shrink.rs.
use artmap.Prelude.{
  and_both, ℕ, ◌≤◌, ◌≡◌, refl, ap, sym, ◌∙◌, true, Option, [], ◌∷◌, ◌++◌, length, arith,
}
use mathlib.Core.List.{append_assoc}
use artmap.Prelude.Bytes.{Key}
use artmap.Prelude.Entries.{Entries, Above, IsSorted, replace, remove}
use artmap.Tree.{
  NodeType, Leaf, Slot, Node, node, Children, nil, cons, to_entries, of_entries,
  to_entries-of_entries, replace_child, remove_child,
}
use artmap.Tree.Wf.{Wf, WfEntries}
use artmap.Tree.Copy.{Below, LiesBelow, LiesBelow-next, Below-mono}
use artmap.Tree.Leaves.{leaves, child_leaves}
use artmap.Tree.Shrink.{settle, fit_children, shrink_to_fit}
use artmap.Tree.Fitted.{assert_fitted, children_fitted}

module _ {ℓ} {A : Type ℓ} where
  replace_behind :
      (b : ℕ) (a c : A) (acc es : Entries A)
      → Below b acc
      → replace b a (acc ++ (b, c) ∷ es) ≡ acc ++ (b, a) ∷ es
  unfolding replace
  replace_behind b a c [] es h = ground arith
  replace_behind b a c ((k, d) ∷ acc) es h = ground (arith, replace_behind b a c acc es h.1)

  remove_behind :
      (b : ℕ) (c : A) (acc es : Entries A) → Below b acc → remove b (acc ++ (b, c) ∷ es) ≡ acc ++ es
  unfolding remove
  remove_behind b c [] es h = ground arith
  remove_behind b c ((k, d) ∷ acc) es h = ground (arith, remove_behind b c acc es h.1)

  LiesBelow-skip : (b : ℕ) (es acc : Entries A) → Below b acc → Above b es → LiesBelow es acc
  LiesBelow-skip b [] acc h a = tt
  LiesBelow-skip b ((k, d) ∷ es) acc h a = Below-mono b k acc a.0 h

module _ {ℓ} {V : Type ℓ} where
  -- What becomes of the children of a node, and that the walk writes it into the node.
  pub record FitAll (path : Key) (cs : Children V) (es : Entries (Slot V)) : Type ℓ where
    pub wf : WfEntries path es
    pub sorted : IsSorted es
    pub above : (b : ℕ) → Above b (to_entries cs) → Above b es
    pub short : length es ≤ length (to_entries cs)
    pub holds : child_leaves (of_entries es) ≡ child_leaves cs
    pub fitted : children_fitted (of_entries es) ≡ true
    pub runs :
        (acc : Entries (Slot V)) (ty : NodeType) (p : Key) (ex : Option (Leaf V))
        → LiesBelow (to_entries cs) acc
        → fit_children cs (node ty p ex (of_entries (acc ++ to_entries cs)))
          ≡ node ty p ex (of_entries (acc ++ es))

  pub FitAll-nil : (path : Key) → FitAll path nil []
  FitAll-nil path = record {
    wf = tt;
    sorted = tt;
    above = λ b a. tt;
    short = omega arith;
    holds = refl;
    fitted = unfold children_fitted in refl;
    runs = λ acc ty p ex h. unfold fit_children in refl;
  }

  -- A step of the walk over the children.
  fit_step :
      (b : ℕ) (s : Slot V) (cs : Children V) (n : Node V)
      → fit_children (cons b s cs) n ≡ fit_children cs (settle b s (shrink_to_fit s) n)
  unfolding fit_children
  fit_step b s cs n = refl

  module _ (path : Key) (b : ℕ) (s s' : Slot V) (cs : Children V) (es : Entries (Slot V))
      (lt : b ≤ 255) (a : Above b (to_entries cs)) (e : shrink_to_fit s ≡ s')
      (g : FitAll path cs es) (kept : leaves s' ≡ leaves s) where
    pub FitAll-kept :
        Wf (path ++ b ∷ []) s'
        → assert_fitted s' ≡ true
        → ((acc : Entries (Slot V)) (ty : NodeType) (p : Key) (ex : Option (Leaf V))
            → Below b acc
            → settle b s s' (node ty p ex (of_entries (acc ++ (b, s) ∷ to_entries cs)))
              ≡ node ty p ex (of_entries (acc ++ (b, s') ∷ to_entries cs)))
        → FitAll path (cons b s cs) ((b, s') ∷ es)
    FitAll-kept w f settles = record {
      wf = (omega arith, w, g.wf);
      sorted = (g.above b a, g.sorted);
      above = λ c h. (h.0, g.above c h.1);
      short = omega (arith, g.short);
      holds = ap (λ t. t ++ child_leaves (of_entries es)) kept ∙ ap (λ t. leaves s ++ t) g.holds;
      fitted =
          unfold children_fitted in
          and_both (assert_fitted s') (children_fitted (of_entries es)) f g.fitted;
      runs = λ acc ty p ex h.
          fit_step b s cs (node ty p ex (of_entries (acc ++ (b, s) ∷ to_entries cs)))
          ∙ ap
              (λ t.
                fit_children cs
                  (settle b s t (node ty p ex (of_entries (acc ++ (b, s) ∷ to_entries cs)))))
              e
          ∙ ap (fit_children cs) (settles acc ty p ex h)
          ∙ ap (λ t. fit_children cs (node ty p ex (of_entries t)))
              (sym (append_assoc acc ((b, s') ∷ []) (to_entries cs)))
          ∙ g.runs (acc ++ (b, s') ∷ []) ty p ex (LiesBelow-next b s' (to_entries cs) acc h a)
          ∙ ap (λ t. node ty p ex (of_entries t)) (append_assoc acc ((b, s') ∷ []) es);
    }

    pub FitAll-dropped :
        leaves s' ≡ []
        → ((acc : Entries (Slot V)) (ty : NodeType) (p : Key) (ex : Option (Leaf V))
            → Below b acc
            → settle b s s' (node ty p ex (of_entries (acc ++ (b, s) ∷ to_entries cs)))
              ≡ node ty p ex (of_entries (acc ++ to_entries cs)))
        → FitAll path (cons b s cs) es
    FitAll-dropped none settles = record {
      wf = g.wf;
      sorted = g.sorted;
      above = λ c h. g.above c h.1;
      short = omega (arith, g.short);
      holds = g.holds ∙ ap (λ t. t ++ child_leaves cs) (sym none ∙ kept);
      fitted = g.fitted;
      runs = λ acc ty p ex h.
          fit_step b s cs (node ty p ex (of_entries (acc ++ (b, s) ∷ to_entries cs)))
          ∙ ap
              (λ t.
                fit_children cs
                  (settle b s t (node ty p ex (of_entries (acc ++ (b, s) ∷ to_entries cs)))))
              e
          ∙ ap (fit_children cs) (settles acc ty p ex h)
          ∙ g.runs acc ty p ex (LiesBelow-skip b (to_entries cs) acc h a);
    }

  -- The write of one child, in place.
  pub settle_replaced :
      (b : ℕ) (c s : Slot V) (acc es : Entries (Slot V)) (ty : NodeType) (p : Key)
      (ex : Option (Leaf V))
      → Below b acc
      → replace_child b s (node ty p ex (of_entries (acc ++ (b, c) ∷ es)))
        ≡ node ty p ex (of_entries (acc ++ (b, s) ∷ es))
  unfolding replace_child
  settle_replaced b c s acc es ty p ex h =
      ap (λ t. node ty p ex (of_entries t))
        (ap (replace b s) (to_entries-of_entries (acc ++ (b, c) ∷ es))
          ∙ replace_behind b s c acc es h)

  pub settle_removed :
      (b : ℕ) (c : Slot V) (acc es : Entries (Slot V)) (ty : NodeType) (p : Key)
      (ex : Option (Leaf V))
      → Below b acc
      → remove_child b (node ty p ex (of_entries (acc ++ (b, c) ∷ es)))
        ≡ node ty p ex (of_entries (acc ++ es))
  unfolding remove_child
  settle_removed b c acc es ty p ex h =
      ap (λ t. node ty p ex (of_entries t))
        (ap (remove b) (to_entries-of_entries (acc ++ (b, c) ∷ es)) ∙ remove_behind b c acc es h)
