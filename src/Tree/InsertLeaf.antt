-- ===== src/Tree/InsertLeaf.antt =====
-- The insert at a slot that holds a leaf: lookups of the new key and of the others.
use artmap.Prelude.{
  ℕ, ◌<◌, ◌≡◌, refl, sym, ap, ◌∙◌, true, false, inl, inr, Option, none, some, ◌++◌, length, drop,
  take, take-append-drop, Bool-cases, arith,
}
use artmap.Prelude.Bytes.{
  Key, bytes_eq, bytes_eq_refl, bytes_eq_sound, common_prefix, common_prefix-le, take-common_prefix,
  common_prefix-Diverge,
}
use mathlib.Core.Bool.{false≢true}
use artmap.Tree.{Leaf, leaf}
use artmap.Tree.Read.{conclude, get_slot}
use artmap.Tree.Write.{
  Mode, replace, insert_if_absent, Outcome, inserted, replaced, existing, insert_at_leaf, same_key,
  build_chain,
}
use artmap.Tree.LeafSplit.{
  over, over_self, over-Diverge, over-none, behind-take, behind-none, get_slot-leaf,
  get_slot-build_chain, pair_reads,
}
use artmap.Tree.Stands.{Stands, bytes_eq-Stands}

module _ {ℓ} {V : Type ℓ} where
  -- The leaf that the key has after an insert.
  abbrev pub holder : Leaf V → Outcome V → Leaf V
  holder new inserted = new
  holder new (replaced old) = new
  holder new (existing old) = old

  pub conclude_hit : (key : Key) (l : Leaf V) → bytes_eq l.key key ≡ true → conclude key l ≡ some l
  unfolding conclude
  conclude_hit key l h = rw h

  pub conclude_miss : (key : Key) (l : Leaf V) → bytes_eq l.key key ≡ false → conclude key l ≡ none
  unfolding conclude
  conclude_miss key l h = rw h

  chain_self :
      (es : Key) (e : Leaf V) (ns : Key) (new : Leaf V) (f depth : ℕ)
      → drop depth new.key ≡ ns
      → length ns < f
      → get_slot f new.key depth (build_chain es e ns new (common_prefix es ns)) ≡ some new
  chain_self es e ns new f depth h lt =
      get_slot-build_chain new.key es e ns new (common_prefix es ns) f depth (rw h lt)
      ∙ rw h (
          behind-take (common_prefix es ns) ns
            (pair_reads new.key (drop (common_prefix es ns) es) e (drop (common_prefix es ns) ns)
              new)
            (common_prefix-le es ns).1)
      ∙ over_self (drop (common_prefix es ns) ns) (conclude new.key new)
          (over (drop (common_prefix es ns) es) (conclude new.key e) (λ _. none))
      ∙ conclude_hit new.key new (bytes_eq_refl new.key)

  same_key_self :
      (mode : Mode) (new e : Leaf V) (f depth : ℕ)
      → 0 < f
      → bytes_eq e.key new.key ≡ true
      → get_slot f new.key depth (same_key mode new e).slot
        ≡ some (holder new (same_key mode new e).outcome)
  unfolding same_key
  same_key_self replace new e f depth lt h =
      get_slot-leaf f new.key depth new lt ∙ conclude_hit new.key new (bytes_eq_refl new.key)
  same_key_self insert_if_absent new e f depth lt h =
      get_slot-leaf f new.key depth e lt ∙ conclude_hit new.key e h

  pub insert_at_leaf_self :
      (mode : Mode) (new e : Leaf V) (f depth : ℕ)
      → length (drop depth new.key) < f
      → get_slot f new.key depth (insert_at_leaf mode new depth e).slot
        ≡ some (holder new (insert_at_leaf mode new depth e).outcome)
  unfolding insert_at_leaf
  insert_at_leaf_self mode new e f depth lt = elim (Bool-cases (bytes_eq e.key new.key)) [
    | inl same ↦ rw same (same_key_self mode new e f depth (omega arith) same)
    | inr other ↦
        rw other (chain_self (drop depth e.key) e (drop depth new.key) new f depth refl lt)
  ]

  same_key_kept :
      (mode : Mode) (new e : Leaf V) (key : Key) (f depth : ℕ)
      → 0 < f
      → bytes_eq e.key new.key ≡ true
      → bytes_eq new.key key ≡ false
      → get_slot f key depth (same_key mode new e).slot ≡ get_slot f key depth (leaf e)
  unfolding same_key
  same_key_kept insert_if_absent new e key f depth lt h ne = refl
  same_key_kept replace new e key f depth lt h ne =
      get_slot-leaf f key depth new lt
      ∙ conclude_miss key new ne
      ∙ sym (conclude_miss key e (ap (λ k. bytes_eq k key) (bytes_eq_sound e.key new.key h) ∙ ne))
      ∙ sym (get_slot-leaf f key depth e lt)

  -- The chain shows the old leaf to its key ...
  chain_old :
      (es : Key) (e : Leaf V) (ns : Key) (new : Leaf V) (f depth : ℕ)
      → drop depth e.key ≡ es
      → length es < f
      → bytes_eq new.key e.key ≡ false
      → (es ≡ ns → ⊥)
      → get_slot f e.key depth (build_chain es e ns new (common_prefix es ns)) ≡ some e
  chain_old es e ns new f depth h lt ne apart =
      get_slot-build_chain e.key es e ns new n f depth (rw h lt)
      ∙ rw (h, ← take-common_prefix es ns)
          (behind-take n es (pair_reads e.key (drop n es) e (drop n ns) new)
            (common_prefix-le es ns).0)
      ∙ ap (λ t. over (drop n ns) t found (drop n es)) (conclude_miss e.key new ne)
      ∙ over-Diverge (drop n es) (drop n ns) none found (common_prefix-Diverge es ns) (λ q. apart (
          sym (take-append-drop n es)
          ∙ ap (λ t. take n es ++ t) q
          ∙ ap (λ t. t ++ drop n ns) (take-common_prefix es ns)
          ∙ take-append-drop n ns))
      ∙ over_self (drop n es) (conclude e.key e) (λ _. none)
      ∙ conclude_hit e.key e (bytes_eq_refl e.key)
    where
      n : ℕ
      n = common_prefix es ns

      found : Key → Option (Leaf V)
      found = over (drop n es) (conclude e.key e) (λ _. none)

  -- ... and nothing to a third key.
  chain_third :
      (es : Key) (e : Leaf V) (ns : Key) (new : Leaf V) (key : Key) (f depth : ℕ)
      → length (drop depth key) < f
      → bytes_eq new.key key ≡ false
      → bytes_eq e.key key ≡ false
      → get_slot f key depth (build_chain es e ns new (common_prefix es ns)) ≡ none
  chain_third es e ns new key f depth lt ne oe =
      get_slot-build_chain key es e ns new n f depth lt
      ∙ rw (conclude_miss key new ne, conclude_miss key e oe)
          (behind-none (take n ns) (over (drop n ns) none (over (drop n es) none (λ _. none)))
            (drop depth key)
            (over-none (drop n ns) (over (drop n es) none (λ _. none)) after
              (over-none (drop n es) (λ _. none) after refl)))
    where
      n : ℕ
      n = common_prefix es ns

      after : Key
      after = drop (length (take n ns)) (drop depth key)

  pub insert_at_leaf_kept :
      (mode : Mode) (new e : Leaf V) (key path : Key) (f depth : ℕ)
      → Stands new.key path depth
      → Stands e.key path depth
      → bytes_eq new.key key ≡ false
      → length (drop depth key) < f
      → get_slot f key depth (insert_at_leaf mode new depth e).slot ≡ get_slot f key depth (leaf e)
  unfolding insert_at_leaf
  insert_at_leaf_kept mode new e key path f depth sn se ne lt =
      elim (Bool-cases (bytes_eq e.key new.key)) [
        | inl same ↦ rw same (same_key_kept mode new e key f depth (omega arith) same ne)
        | inr other ↦ rw other (elim (Bool-cases (bytes_eq e.key key)) [
          | inr third ↦
              chain_third (drop depth e.key) e (drop depth new.key) new key f depth lt ne third
              ∙ sym (get_slot-leaf f key depth e (omega arith) ∙ conclude_miss key e third)
          | inl old ↦ kept_old other (bytes_eq_sound e.key key old)
        ])
      ]
    where
      kept_old :
          bytes_eq e.key new.key ≡ false
          → e.key ≡ key
          → get_slot f key depth (
              build_chain
                (drop depth e.key)
                e
                (drop depth new.key)
                new
                (common_prefix (drop depth e.key) (drop depth new.key)))
            ≡ get_slot f key depth (leaf e)
      kept_old other same =
          ap
            (λ k. get_slot f k depth (
              build_chain (drop depth e.key) e (drop depth new.key) new
                (common_prefix (drop depth e.key) (drop depth new.key))))
            (sym same)
          ∙ chain_old (drop depth e.key) e (drop depth new.key) new f depth refl (rw same lt)
              (ap (bytes_eq new.key) same ∙ ne)
              (λ q. false≢true (
                sym other
                ∙ bytes_eq-Stands e.key new.key path depth se sn
                ∙ ap (λ t. bytes_eq t (drop depth new.key)) q
                ∙ bytes_eq_refl (drop depth new.key)))
          ∙ sym (
              get_slot-leaf f key depth e (omega arith)
              ∙ conclude_hit key e (ap (bytes_eq e.key) (sym same) ∙ bytes_eq_refl e.key))
