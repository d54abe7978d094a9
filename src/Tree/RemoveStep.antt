-- ===== src/Tree/RemoveStep.antt =====
-- What a remove does at one node: the lookups afterwards, and the trees it leaves.
use artmap.Prelude.{
  ℕ, zero, suc, ◌+◌, ◌<◌, ◌≡◌, refl, sym, ap, ◌∙◌, Bool, true, false, inl, inr, Option, none, some,
  [], ◌∷◌, ◌++◌, length, drop, if◌then◌else◌, Bool-cases, arith,
}
use mathlib.Core.Path.{subst}
use mathlib.Core.Bool.{false≢true}
use artmap.Prelude.Bytes.{Key, bytes_eq, bytes_eq_refl, bytes_eq_sound, is_prefix_of}
use artmap.Prelude.Entries.{remove-IsSorted, length-remove, remove}
use artmap.Tree.{
  Leaf, Slot, null, leaf, inner, Node, node, prefix, find_child, remove_child, set_exact_leaf,
  to_entries, to_entries-of_entries,
}
use artmap.Tree.Read.{get_slot, follow, conclude, conclude_exact}
use artmap.Tree.Remove.{Taken, Removed, emptied_by, take_out, take_leaf}
use artmap.Tree.Wf.{Wf, WfNode, WfAll-entries, WfEntries-of, WfEntries-remove}
use artmap.Tree.LeafSplit.{get_slot-leaf}
use artmap.Tree.NodeReads.{step}
use artmap.Tree.InsertLeaf.{conclude_hit, conclude_miss}
use artmap.Tree.InsertNode.{
  get_slot_through, get_slot_alike, prefix-set_exact, follow-set_exact_byte,
}
use artmap.Tree.Stands.{Stands, Stands-end}
use artmap.Tree.Rerouted.{
  Rerouted, remove_child-Rerouted, Rerouted-hit, Rerouted-kept, Vacant, get_slot-unlinked,
}

-- A slot of a parent that may have been unlinked.
abbrev pub NullOrWf {ℓ} : {V : Type ℓ} → Key → Slot V → Type 0
NullOrWf path null = Unit
NullOrWf path (leaf l) = Wf path (leaf l)
NullOrWf path (inner n) = WfNode path n

module _ {ℓ} {V : Type ℓ} where
  pub remove_child-Wf :
      (path : Key) (byte : ℕ) {old : Slot V} (n : Node V)
      → WfNode path n
      → find_child byte n ≡ some old
      → WfNode path (remove_child byte n)
  unfolding remove_child find_child
  remove_child-Wf path byte {old} (node ty p ex cs) w h = (
    w.0,
    w.1,
    w.2,
    rw (to_entries-of_entries (remove byte (to_entries cs)))
        (remove-IsSorted byte (to_entries cs) w.3),
    rw (to_entries-of_entries (remove byte (to_entries cs)))
        (omega (arith, length-remove byte {old = old} (to_entries cs) h, w.4)),
    WfEntries-of (path ++ p) (remove byte (to_entries cs))
        (WfEntries-remove (path ++ p) byte (to_entries cs) (WfAll-entries (path ++ p) cs w.5)),
  )

  pub unlinked-Wf :
      (path : Key) (empty : Bool) (n : Node V)
      → WfNode path n
      → NullOrWf path (if empty then null else inner n)
  unlinked-Wf path true n w = tt
  unlinked-Wf path false n w = w

module _ {ℓ} {V : Type ℓ} (key : Key) where
  -- Without the key, and otherwise as before.
  abbrev pub dropped : (Key → Option (Leaf V)) → Key → Option (Leaf V)
  dropped before k = if bytes_eq key k then none else before k

  -- The key's leaf has gone from a slot.
  pub record Gone (path : Key) (depth : ℕ) (s : Slot V) (d : Removed V) : Type ℓ where
    pub was : (f : ℕ) → length (drop depth key) < f → get_slot f key depth s ≡ some d.taken_leaf
    pub keeps : NullOrWf path d.slot
    pub reads :
        (f : ℕ) (k : Key)
        → Stands k path depth
        → length (drop depth k) < f
        → get_slot f k depth d.slot ≡ dropped (λ j. get_slot f j depth s) k

  -- The result of a remove at a slot: the leaf has gone, or there was none.
  abbrev pub Result : Key → ℕ → Slot V → Option (Removed V) → Type ℓ
  Result path depth s none = (f : ℕ) → length (drop depth key) < f → get_slot f key depth s ≡ none
  Result path depth s (some d) = Gone path depth s d

  abbrev pub of_key : Leaf V → Bool
  of_key l = bytes_eq l.key key

  abbrev pub always : Leaf V → Option ℕ
  always l = some 1

  -- A leaf in hand, that the lookup of the key ends at.
  pub take_leaf-Result :
      (path : Key) (depth : ℕ) (taken : Taken) (l : Leaf V) (n : Node V)
      → WfNode path (take_out taken n)
      → (emptied_by taken n ≡ true → Vacant (take_out taken n))
      → ((f : ℕ) → length (drop depth key) < f → get_slot f key depth (inner n) ≡ conclude key l)
      → (bytes_eq l.key key ≡ true
          → (f : ℕ) (k : Key) → Stands k path depth
          → length (drop depth k) < f
          → get_slot f k depth (inner (take_out taken n))
            ≡ dropped (λ j. get_slot f j depth (inner n)) k)
      → Result path depth (inner n) (take_leaf of_key always taken l n)
  unfolding take_leaf
  take_leaf-Result path depth taken l n w vac ends reads = elim (Bool-cases (bytes_eq l.key key)) [
    | inr other ↦ rw other (λ f lt. ends f lt ∙ conclude_miss key l other)
    | inl same ↦ rw same (record {
      was = λ f lt. ends f lt ∙ conclude_hit key l same;
      keeps = unlinked-Wf path (emptied_by taken n) (take_out taken n) w;
      reads = λ f k st lt.
          get_slot-unlinked f k depth (emptied_by taken n) (take_out taken n) vac
          ∙ reads same f k st lt;
    })
  ]

  -- Reading a node whose slot at the byte of the key was rerouted: the key is not found, and the
  -- others as before.
  pub Rerouted-dropped :
      (f depth : ℕ) (path : Key) (byte : ℕ) {below : Key} (o : Option (Slot V)) (n n' : Node V)
      (k : Key)
      → Rerouted byte o n n'
      → is_prefix_of (prefix n) (drop depth key) ≡ true
      → drop (length (prefix n)) (drop depth key) ≡ byte ∷ below
      → ((below' : Key)
          → is_prefix_of (prefix n) (drop depth k) ≡ true
          → drop (length (prefix n)) (drop depth k) ≡ byte ∷ below'
          → step (get_slot f k) (depth + length (prefix n) + 1) o
            ≡ dropped
                (λ j. step (get_slot f j) (depth + length (prefix n) + 1) (find_child byte n))
                k)
      → get_slot (suc f) k depth (inner n') ≡ dropped (λ j. get_slot (suc f) j depth (inner n)) k
  Rerouted-dropped f depth path byte {below} o n n' k w ip e h =
      elim (Bool-cases (bytes_eq key k)) [
        | inl same ↦
            let q = bytes_eq_sound key k same in
            let ipk = subst (λ t. is_prefix_of (prefix n) (drop depth t) ≡ true) q ip in
            let ek = subst (λ t. drop (length (prefix n)) (drop depth t) ≡ byte ∷ below) q e in
            rw same (
              Rerouted-hit f k depth byte o n n' w ipk ek
              ∙ h below ipk ek
              ∙ ap
                  (λ b.
                    if b
                    then none
                    else step (get_slot f k) (depth + length (prefix n) + 1) (find_child byte n))
                  same)
        | inr other ↦ rw other (
            Rerouted-kept f k depth byte o n n' w (λ below' iq q.
              h below' iq q
              ∙ ap
                  (λ b.
                    if b
                    then none
                    else step (get_slot f k) (depth + length (prefix n) + 1) (find_child byte n))
                  other))
      ]

  -- The leaf of the key at a byte goes.
  pub entry-dropped :
      (path : Key) (depth : ℕ) (byte : ℕ) {below : Key} (l : Leaf V) (n : Node V)
      → WfNode path n
      → is_prefix_of (prefix n) (drop depth key) ≡ true
      → drop (length (prefix n)) (drop depth key) ≡ byte ∷ below
      → find_child byte n ≡ some (leaf l)
      → bytes_eq l.key key ≡ true
      → (f : ℕ) (k : Key) → Stands k path depth
      → length (drop depth k) < f
      → get_slot f k depth (inner (remove_child byte n))
        ≡ dropped (λ j. get_slot f j depth (inner n)) k
  entry-dropped path depth byte l (node ty p ex cs) w ip e h same zero k st lt =
      absurd (omega arith)
  entry-dropped path depth byte l (node ty p ex cs) w ip e h same (suc f) k st lt =
      Rerouted-dropped f depth path byte none (node ty p ex cs)
        (remove_child byte (node ty p ex cs)) k (remove_child-Rerouted byte (node ty p ex cs) w.3)
        ip e
        (λ below' iq q. elim (Bool-cases (bytes_eq key k)) [
          | inl hit ↦ rw hit refl
          | inr other ↦ rw (other, h) (sym (leaf_miss f k (depth + length p + 1) (λ g. g ∙ other)))
        ])
    where
      leaf_miss :
          (f : ℕ) (k : Key) (nd : ℕ)
          → (bytes_eq l.key k ≡ bytes_eq key k → bytes_eq l.key k ≡ false)
          → get_slot f k nd (leaf l) ≡ none
      leaf_miss zero k nd g = unfold get_slot in refl
      leaf_miss (suc f) k nd g =
          get_slot-leaf (suc f) k nd l (omega arith)
          ∙ conclude_miss k l (g (ap (λ t. bytes_eq t k) (bytes_eq_sound l.key key same)))

  -- The exact leaf goes.
  pub exact-dropped :
      (path : Key) (depth : ℕ) (n : Node V)
      → is_prefix_of (prefix n) (drop depth key) ≡ true
      → drop (length (prefix n)) (drop depth key) ≡ []
      → Stands key path depth
      → (f : ℕ) (k : Key) → Stands k path depth
      → length (drop depth k) < f
      → get_slot f k depth (inner (set_exact_leaf none n))
        ≡ dropped (λ j. get_slot f j depth (inner n)) k
  exact-dropped path depth n ip e sk zero k st lt = absurd (omega arith)
  exact-dropped path depth n ip e sk (suc f) k st lt = elim (Bool-cases (bytes_eq key k)) [
    | inl same ↦ rw same (hit k (bytes_eq_sound key k same))
    | inr other ↦ rw other (
        get_slot_alike f k depth n (set_exact_leaf none n) (prefix-set_exact none n)
          (λ iq. by_rest other iq (drop (length (prefix n)) (drop depth k)) refl))
  ]
    where
      hit_end :
          (next : ℕ → Slot V → Option (Leaf V)) (nd : ℕ) (m : Node V)
          → follow key next nd (set_exact_leaf none m) [] ≡ none
      hit_end next nd (node ty p ex cs) = unfold follow set_exact_leaf conclude_exact in refl

      hit : (k : Key) → key ≡ k → get_slot (suc f) k depth (inner (set_exact_leaf none n)) ≡ none
      hit k q =
          subst (λ t. get_slot (suc f) t depth (inner (set_exact_leaf none n)) ≡ none) q
            (get_slot_through f key depth (set_exact_leaf none n) []
                (rw (prefix-set_exact none n) ip) (rw (prefix-set_exact none n) e)
              ∙ hit_end (get_slot f key) _ n)

      by_rest :
          bytes_eq key k ≡ false
          → is_prefix_of (prefix n) (drop depth k) ≡ true
          → (after : Key) → drop (length (prefix n)) (drop depth k) ≡ after
          → follow k (get_slot f k) (depth + length (prefix n)) (set_exact_leaf none n) after
            ≡ follow k (get_slot f k) (depth + length (prefix n)) n after
      by_rest other iq [] h = absurd (
          false≢true (
            sym other
            ∙ ap (λ t. bytes_eq t k)
                (Stands-end key path (prefix n) depth sk ip e
                  ∙ sym (Stands-end k path (prefix n) depth st iq h))
            ∙ bytes_eq_refl k))
      by_rest other iq (b ∷ below) h =
          follow-set_exact_byte k (get_slot f k) (depth + length (prefix n)) none n b below
