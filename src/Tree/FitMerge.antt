-- ===== src/Tree/FitMerge.antt =====
-- The merge of a node into its only child, of src/raw/shrink.rs.
use artmap.Prelude.{
  and_both, and_left, and_right, ℕ, suc, ◌+◌, ◌≤◌, ◌≡◌, refl, ap, sym, ◌∙◌, true, false, inl, inr,
  Option, none, some, [], ◌∷◌, ◌++◌, ◌==◌, ==_refl, length, leb, ltb, le→leb, leb→le, leb-false,
  lt→ltb, length-append, Bool-cases, arith,
}
use mathlib.Core.Bool.{false≢true}
use mathlib.Core.List.{append_assoc, append-nil}
use artmap.Prelude.Bytes.{Key}
use artmap.Tree.{
  NodeType, node4, capacity, fitting, max_prefix_len, Leaf, null, leaf, inner, Node, node, Children,
  nil, cons, to_entries, node_type, prefix, num_children, store_prefix,
}
use artmap.Tree.Wf.{IsBytes, WfNode}
use artmap.Tree.Copy.{copy_into-fresh}
use artmap.Tree.NodeWf.{store_prefix-Wf}
use artmap.Tree.Remove.{nothing}
use artmap.Tree.Leaves.{node_leaves}
use artmap.Tree.Shrink.{
  rank, Rest, no_entry, one_leaf, one_inner, many, merge, shrink, merged_prefix, merge_into, rest,
  plan, plan_single, replacement, fit,
}
use artmap.Tree.Fitted.{
  rest_fitted, assert_fitted, children_fitted, capacity-fitting, fitting_least, capacity_most,
  IsBytes-append, same_rank, Fits, retype_leaves, node_fitted, retyped-Fits, fit_as, shrink_copy,
}

fits_in :
    (p : Key) (b : ℕ) (c : Key)
    → length p + 1 + length c ≤ max_prefix_len
    → merged_prefix p b c ≡ some (p ++ b ∷ c)
unfolding merged_prefix
fits_in p b c h = let e : ltb 16 (length p + 1 + length c) ≡ false = ground arith in rw e refl

module _ {ℓ} {V : Type ℓ} where
  -- the child of a merge, with the merged prefix and in its smallest layout
  abbrev merged : Key → Node V → Node V
  merged bytes (node tc pc ec cc) = node (fitting (length (to_entries cc))) bytes ec cc

  merge_copy :
      (path bytes : Key) (n c : Node V)
      → WfNode path c
      → merge_into n c (fitting (num_children c)) (some bytes) ≡ inner (merged bytes c)
  unfolding merge_into store_prefix
  merge_copy path bytes n (node tc pc ec cc) w =
      let k = length (to_entries cc) in
      let room : leb k (capacity (fitting k)) ≡ true =
        le→leb k (capacity (fitting k))
          (capacity-fitting k (omega (arith, w.4, capacity_most tc))) in
      rw room (
        ap (λ m. inner (store_prefix bytes m)) (copy_into-fresh (node tc pc ec cc) (fitting k) w.3))

  merged-Wf :
      (path p : Key) (b : ℕ) (c : Node V)
      → WfNode ((path ++ p) ++ b ∷ []) c
      → length p + 1 + length (prefix c) ≤ max_prefix_len
      → IsBytes p
      → b ≤ 255
      → WfNode path (merged (p ++ b ∷ prefix c) c)
  merged-Wf path p b (node tc pc ec cc) w short bp lt =
      let k = length (to_entries cc) in
      let m =
        store_prefix-Wf ((path ++ p) ++ b ∷ []) path (p ++ b ∷ pc) (node (fitting k) pc ec cc)
          (w.0, w.1, w.2, w.3, capacity-fitting k (omega (arith, w.4, capacity_most tc)), w.5)
          (sym (append_assoc (path ++ p) (b ∷ []) pc ∙ append_assoc path p (b ∷ pc)))
          (omega (arith, length-append p (b ∷ pc)))
          (IsBytes-append p (b ∷ pc) bp (omega arith, w.1)) in
      unfold store_prefix in m

  merge_as :
      (path p : Key) (b : ℕ) (n c : Node V)
      → WfNode path c
      → prefix n ≡ p
      → length p + 1 + length (prefix c) ≤ max_prefix_len
      → replacement n (some (merge b c (fitting (num_children c))))
        ≡ inner (merged (p ++ b ∷ prefix c) c)
  unfolding replacement
  merge_as path p b n c w e short =
      ap (λ q. merge_into n c (fitting (num_children c)) (merged_prefix q b (prefix c))) e
      ∙ ap (merge_into n c (fitting (num_children c))) (fits_in p b (prefix c) short)
      ∙ merge_copy path (p ++ b ∷ prefix c) n c w

  -- The rest of a node does not depend on its type and prefix.
  rest_same :
      (ty ty' : NodeType) (p p' : Key) (ex : Option (Leaf V)) (cs : Children V)
      → rest nothing (node ty' p' ex cs) ≡ rest nothing (node ty p ex cs)
  unfolding rest
  rest_same ty ty' p p' ex cs = refl

  -- A longer prefix and the smallest layout keep a fitted node fitted.
  merged_rest :
      (p : Key) (b : ℕ) (c : Node V) (r : Rest V)
      → num_children c ≤ capacity (node_type c)
      → rest_fitted c r ≡ true
      → rest_fitted (merged (p ++ b ∷ prefix c) c) r ≡ true
  unfolding rest_fitted
  merged_rest p b c no_entry room f = absurd (false≢true f)
  merged_rest p b c (one_leaf l) room f = absurd (false≢true f)
  merged_rest p b c (one_inner x null) room f = absurd (false≢true f)
  merged_rest p b c (one_inner x (leaf l)) room f = absurd (false≢true f)
  merged_rest p b (node tc pc ec cc) (one_inner x (inner d)) room f =
      let long =
        and_left (ltb max_prefix_len (length pc + 1 + length (prefix d))) (rank tc == 0) f in
      let low =
        and_right (ltb max_prefix_len (length pc + 1 + length (prefix d))) (rank tc == 0) f in
      and_both (ltb max_prefix_len (length (p ++ b ∷ pc) + 1 + length (prefix d)))
        (rank (fitting (length (to_entries cc))) == 0)
        (longer (length p) (length pc) (length (prefix d)) (length (p ++ b ∷ pc))
          (length-append p (b ∷ pc)) long)
        (lower (rank (fitting (length (to_entries cc)))) (rank tc)
          (fitting_least tc (length (to_entries cc)) room) low)
    where
      longer : (i j k m : ℕ) → m ≡ i + suc j → ltb 16 (j + 1 + k) ≡ true → ltb 16 (m + 1 + k) ≡ true
      longer i j k m e h = ground arith

      lower : (i j : ℕ) → i ≤ j → (j == 0) ≡ true → (i == 0) ≡ true
      lower i j h e = ground arith
  merged_rest p b (node tc pc ec cc) many room f = ==_refl (rank (fitting (length (to_entries cc))))

  rest-merged : (bytes : Key) (c : Node V) → rest nothing (merged bytes c) ≡ rest nothing c
  rest-merged bytes (node tc pc ec cc) =
      rest_same tc (fitting (length (to_entries cc))) pc bytes ec cc

  merged_leaves : (bytes : Key) (c : Node V) → node_leaves (merged bytes c) ≡ node_leaves c
  merged_leaves bytes (node tc pc ec cc) =
      retype_leaves tc (fitting (length (to_entries cc))) pc bytes ec cc

  merged_fitted :
      (path p : Key) (b : ℕ) (c : Node V)
      → WfNode path c
      → assert_fitted (inner c) ≡ true
      → assert_fitted (inner (merged (p ++ b ∷ prefix c) c)) ≡ true
  unfolding assert_fitted
  merged_fitted path p b (node tc pc ec cc) w f =
      let c = node tc pc ec cc in
      let here = and_left (rest_fitted c (rest nothing c)) (children_fitted cc) f in
      let below = and_right (rest_fitted c (rest nothing c)) (children_fitted cc) f in
      node_fitted (fitting (length (to_entries cc))) (p ++ b ∷ pc) ec cc
        (rest-merged (p ++ b ∷ pc) c) (merged_rest p b c (rest nothing c) w.4 here) below

  pub inner_case :
      (path : Key) (ty : NodeType) (p : Key) (b : ℕ) (c : Node V)
      → WfNode path (node ty p none (cons b (inner c) nil))
      → assert_fitted (inner c) ≡ true
      → Fits path
          (inner (node ty p none (cons b (inner c) nil)))
          (fit (node ty p none (cons b (inner c) nil)))
  unfolding plan plan_single rest_fitted assert_fitted
  inner_case path ty p b c w f =
      let cs = cons b (inner c) nil in
      let n = node ty p none cs in
      let single : (t : NodeType) → rest nothing (node t p none cs) ≡ one_inner b (inner c) =
        λ t. unfold rest in refl in
      elim (Bool-cases (leb (length p + 1 + length (prefix c)) 16)) [
        | inl short ↦
            fit_as path n {q = some (merge b c (fitting (num_children c)))} (single ty)
              (rw short refl)
              (merge_as ((path ++ p) ++ b ∷ []) p b n c w.5.1 refl
                (leb→le (length p + 1 + length (prefix c)) 16 short))
              (record {
                keeps =
                    merged-Wf path p b c w.5.1 (leb→le (length p + 1 + length (prefix c)) 16 short)
                      w.1 (omega (arith, w.5.0));
                holds = merged_leaves (p ++ b ∷ prefix c) c ∙ sym (append-nil (node_leaves c));
                fitted = merged_fitted ((path ++ p) ++ b ∷ []) p b c w.5.1 f;
              })
        | inr long ↦
            let apart =
              lt→ltb 16 (length p + 1 + length (prefix c))
                (leb-false (length p + 1 + length (prefix c)) 16 long) in
            let below = and_both (assert_fitted (inner c)) true f refl in
            elim (Bool-cases (ltb 0 (rank ty))) [
              | inl large ↦
                  fit_as path n {q = some (shrink node4)} (single ty) (rw (long, large) refl)
                    (shrink_copy path n node4 w)
                    (retyped-Fits path ty node4 p none cs w (unfold capacity in omega arith)
                      (single node4)
                      (and_both (ltb 16 (length p + 1 + length (prefix c))) true apart refl) below)
              | inr small ↦
                  fit_as path n {q = none} {s = inner n} (single ty) (rw (long, small) refl)
                    (unfold replacement in refl)
                    (retyped-Fits path ty ty p none cs w w.4 (single ty)
                      (and_both (ltb 16 (length p + 1 + length (prefix c))) (rank ty == 0) apart
                        (same_rank 0 (rank ty) (omega arith) small))
                      below)
            ]
      ]
