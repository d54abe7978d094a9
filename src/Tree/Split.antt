-- ===== src/Tree/Split.antt =====
-- What a lookup finds after a prefix split (src/raw/write.rs).
use artmap.Prelude.{
  ℕ, zero, suc, ◌+◌, ◌<◌, ◌≡◌, refl, sym, ap, ◌∙◌, false, Option, some, [], ◌∷◌, length, drop, take,
  get_or, cut_at, length-take, length-drop, drop_at, arith,
}
use artmap.Prelude.Bytes.{
  Key, bytes_eq, bytes_eq_refl, common_prefix, common_prefix-le, take-common_prefix,
  common_prefix-Diverge,
}
use artmap.Tree.{Leaf, Slot, inner, Node, node, prefix, store_prefix, find_child}
use artmap.Tree.Read.{conclude, get_slot, follow}
use artmap.Tree.Write.{split_node}
use artmap.Tree.Look.{
  behind, behind_cong, behind_parts, at_byte, drop_below, length_below, get_slot-inner,
}
use artmap.Tree.Chain.{single, follow-single, prefix-single}
use artmap.Tree.LeafSplit.{
  over, over_self, over_cong, behind-take, follow-hang, prefix-hang, get_slot-leaf,
}
use artmap.Tree.NodeReads.{over-at_byte, follow_cong, get_slot_fuel}
use artmap.Tree.InsertLeaf.{conclude_hit, conclude_miss}

module _ {ℓ} {V : Type ℓ} where
  follow-store_prefix :
      (key : Key) (next : ℕ → Slot V → Option (Leaf V)) (nd : ℕ) (p : Key) (n : Node V)
      (after : Key)
      → follow key next nd (store_prefix p n) after ≡ follow key next nd n after
  unfolding follow store_prefix find_child
  follow-store_prefix key next nd p (node ty q ex cs) [] = refl
  follow-store_prefix key next nd p (node ty q ex cs) (b ∷ r) = refl

  prefix-store_prefix : (p : Key) (n : Node V) → prefix (store_prefix p n) ≡ p
  unfolding store_prefix
  prefix-store_prefix p (node ty q ex cs) = refl

  -- The node that was split reads behind the rest of its prefix as before.
  get_slot-lower :
      (f d nd : ℕ) (key p : Key) (n : Node V)
      → d + length p ≡ nd
      → length (drop d key) < f
      → get_slot f key d (inner (store_prefix p n))
        ≡ behind p (follow key (get_slot f key) nd n) (drop d key)
  get_slot-lower zero d nd key p n e lt = absurd (omega arith)
  get_slot-lower (suc f) d nd key p n e lt =
      get_slot-inner f key d (store_prefix p n)
      ∙ rw (prefix-store_prefix p n) (
          behind_cong p (follow key (get_slot f key) (d + length p) (store_prefix p n))
            (follow key (get_slot (suc f) key) nd n) (drop d key)
            (follow-store_prefix key (get_slot f key) (d + length p) p n after
              ∙ follow_cong key (get_slot f key) (get_slot (suc f) key) (d + length p) nd n after
                  (λ b below s h.
                    let q = length_below (drop d key) (length p) h in
                    let r = ap length (drop_below key d (length p) h) in
                    ap (λ t. get_slot f key (t + 1) s) e
                    ∙ get_slot_fuel f (suc f) key (nd + 1) s (rw (← e) (omega arith))
                        (rw (← e) (omega arith)))))
    where
      after : Key
      after = drop (length p) (drop d key)

  -- Both halves of the prefix, the branch byte between them, and the new leaf beside the old node.
  get_slot-split :
      (f : ℕ) (key : Key) (depth : ℕ) (new : Leaf V) (after : Key) (m : ℕ) (n : Node V)
      → m < length (prefix n)
      → length (drop depth key) < suc f
      → get_slot (suc f) key depth (inner (split_node new after m n))
        ≡ behind
            (take m (prefix n))
            (over after (conclude key new) (
              at_byte (get_or (prefix n) m 0) (
                behind
                  (drop (suc m) (prefix n))
                  (follow key (get_slot f key) (depth + length (prefix n)) n))))
            (drop depth key)
  get_slot-split f key depth new after m n lt fits =
      get_slot-inner f key depth (split_node new after m n)
      ∙ rw prefix-split (
          behind_cong (take m p) (follow key next nd (split_node new after m n))
            (over after (conclude key new) (at_byte c (behind (drop (suc m) p) found)))
            (drop depth key)
            (unfold split_node in
              follow-hang key next nd after new top here (λ b below h.
                get_slot-leaf f key (nd + 1) new
                  (let q = length_below (drop depth key) (length (take m p)) h in omega arith))
              ∙ over_cong after (conclude key new) (follow key next nd top)
                  (at_byte c (behind (drop (suc m) p) found)) here
                  (follow-single key next nd (take m p) c low (behind (drop (suc m) p) found) here
                    (λ b below h.
                      let q = length_below (drop depth key) (length (take m p)) h in
                      let r = drop_below key depth (length (take m p)) h in
                      get_slot-lower f (nd + 1) (depth + length p) key (drop (suc m) p) n
                        (omega (arith, length-take m p, length-drop (suc m) p)) (rw r (omega arith))
                      ∙ ap (behind (drop (suc m) p) found) r))))
    where
      p : Key
      p = prefix n

      c : ℕ
      c = get_or p m 0

      low : Slot V
      low = inner (store_prefix (drop (suc m) p) n)

      top : Node V
      top = single (take m p) c low

      nd : ℕ
      nd = depth + length (take m p)

      next : ℕ → Slot V → Option (Leaf V)
      next = get_slot f key

      found : Key → Option (Leaf V)
      found = follow key (get_slot f key) (depth + length p) n

      here : Key
      here = drop (length (take m p)) (drop depth key)

      prefix-split : prefix (split_node new after m n) ≡ take m p
      prefix-split = unfold split_node in prefix-hang after new top ∙ prefix-single (take m p) c low

  pub split_self :
      (f : ℕ) (depth : ℕ) (new : Leaf V) (n : Node V)
      → let rest = drop depth new.key in
        let m = common_prefix (prefix n) rest in
        m < length (prefix n)
        → length rest < suc f
        → get_slot (suc f) new.key depth (inner (split_node new (drop m rest) m n)) ≡ some new
  split_self f depth new n lt fits =
      get_slot-split f new.key depth new (drop m rest) m n lt fits
      ∙ rw (take-common_prefix (prefix n) rest) (
          behind-take m rest (over (drop m rest) (conclude new.key new) below)
            (common_prefix-le (prefix n) rest).1)
      ∙ over_self (drop m rest) (conclude new.key new) below
      ∙ conclude_hit new.key new (bytes_eq_refl new.key)
    where
      rest : Key
      rest = drop depth new.key

      m : ℕ
      m = common_prefix (prefix n) rest

      below : Key → Option (Leaf V)
      below = at_byte (get_or (prefix n) m 0) (
          behind (drop (suc m) (prefix n))
            (follow new.key (get_slot f new.key) (depth + length (prefix n)) n))

  pub split_kept :
      (f : ℕ) (key : Key) (depth : ℕ) (new : Leaf V) (n : Node V)
      → let rest = drop depth new.key in
        let m = common_prefix (prefix n) rest in
        m < length (prefix n)
        → bytes_eq new.key key ≡ false
        → length (drop depth key) < suc f
        → get_slot (suc f) key depth (inner (split_node new (drop m rest) m n))
          ≡ get_slot (suc f) key depth (inner n)
  split_kept f key depth new n lt ne fits =
      get_slot-split f key depth new (drop m rest) m n lt fits
      ∙ behind_cong (take m p) (over (drop m rest) (conclude key new) below) below (drop depth key)
          (ap (λ t. over (drop m rest) t below here) (conclude_miss key new ne)
            ∙ over-at_byte (get_or p m 0) (drop (suc m) p) (drop m rest)
                (behind (drop (suc m) p) found) here
                (rw (← drop_at m p 0 lt) (common_prefix-Diverge p rest)))
      ∙ sym (behind_parts (take m p) (get_or p m 0) (drop (suc m) p) found (drop depth key))
      ∙ ap (λ t. behind t found (drop depth key)) (sym (cut_at m p 0 lt))
      ∙ sym (get_slot-inner f key depth n)
    where
      rest : Key
      rest = drop depth new.key

      p : Key
      p = prefix n

      m : ℕ
      m = common_prefix p rest

      found : Key → Option (Leaf V)
      found = follow key (get_slot f key) (depth + length p) n

      below : Key → Option (Leaf V)
      below = at_byte (get_or p m 0) (behind (drop (suc m) p) found)

      here : Key
      here = drop (length (take m p)) (drop depth key)
