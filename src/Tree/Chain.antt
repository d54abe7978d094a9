-- ===== src/Tree/Chain.antt =====
-- Lookups in the chain that `build_chain` of src/raw/write.rs builds.
use artmap.Prelude.{
  ℕ, zero, suc, ◌+◌, ◌<◌, ◌≡◌, refl, sym, ap, ◌∙◌, true, false, inl, inr, Option, [], ◌∷◌, length,
  drop, take, get_or, cut_at, ltb, ltb→lt, Bool-cases, arith,
}
use artmap.Prelude.Bytes.{Key}
use artmap.Prelude.Entries.{find, insert}
use artmap.Tree.{
  node4, Leaf, Slot, inner, Node, prefix, find_child, fresh, insert_child, store_prefix,
}
use artmap.Tree.Read.{get_slot, follow}
use artmap.Tree.Write.{chain}
use artmap.Tree.Look.{
  behind, at_byte, behind_parts, behind_cong, drop_below, length_below, get_slot-inner,
}

module _ {ℓ} {V : Type ℓ} where
  -- A node with one child reads like the child behind its prefix and byte.
  abbrev pub single : Key → ℕ → Slot V → Node V
  single a c s = insert_child c s (store_prefix a (fresh node4))

  pub follow-single :
      (key : Key) (next : ℕ → Slot V → Option (Leaf V)) (nd : ℕ) (a : Key) (c : ℕ) (s : Slot V)
      (found : Key → Option (Leaf V)) (after : Key)
      → ((b : ℕ) (below : Key) → after ≡ b ∷ below → next (nd + 1) s ≡ found below)
      → follow key next nd (single a c s) after ≡ at_byte c found after
  unfolding follow find_child insert_child store_prefix fresh find insert
  follow-single key next nd a c s found [] h = refl
  follow-single key next nd a c s found (b ∷ below) h = ground (arith, h b below refl)

  pub prefix-single : (a : Key) (c : ℕ) (s : Slot V) → prefix (single a c s) ≡ a
  unfolding insert_child store_prefix fresh
  prefix-single a c s = refl

  pub get_slot-single :
      (f : ℕ) (key : Key) (depth : ℕ) (a : Key) (c : ℕ) (s : Slot V) (found : Key → Option (Leaf V))
      → ((d : ℕ) (below : Key)
          → drop d key ≡ below
          → length below < f
          → get_slot f key d s ≡ found below)
      → length (drop depth key) < suc f
      → get_slot (suc f) key depth (inner (single a c s))
        ≡ behind a (at_byte c found) (drop depth key)
  get_slot-single f key depth a c s found h lt =
      get_slot-inner f key depth (single a c s)
      ∙ rw (prefix-single a c s) (
          behind_cong a (follow key (get_slot f key) (depth + length a) (single a c s))
            (at_byte c found) (drop depth key)
            (follow-single key (get_slot f key) (depth + length a) a c s found
              (drop (length a) (drop depth key))
              (λ b below e.
                h (depth + length a + 1) below (drop_below key depth (length a) e)
                  (let q = length_below (drop depth key) (length a) e in omega arith))))

  pub chain_long :
      (k : ℕ) (bot : Key → Node V) (pre : Key)
      → ltb 16 (length pre) ≡ true
      → chain (suc k) bot pre
        ≡ inner (single (take 16 pre) (get_or pre 16 0) (chain k bot (drop 17 pre)))
  unfolding chain
  chain_long k bot pre h = rw h

  pub chain_short :
      (k : ℕ) (bot : Key → Node V) (pre : Key)
      → ltb 16 (length pre) ≡ false
      → chain (suc k) bot pre ≡ inner (bot pre)
  unfolding chain
  chain_short k bot pre h = rw h

  pub chain_zero : (bot : Key → Node V) (pre : Key) → chain zero bot pre ≡ inner (bot pre)
  unfolding chain
  chain_zero bot pre = refl

  module _ (key : Key) (bot : Key → Node V) (ends : Key → Option (Leaf V))
      (bot_reads : (f depth : ℕ) (p : Key)
        → length (drop depth key) < f
        → get_slot f key depth (inner (bot p)) ≡ behind p ends (drop depth key)) where
    pub get_slot-chain :
        (k f depth : ℕ) (pre : Key)
        → length (drop depth key) < f
        → get_slot f key depth (chain k bot pre) ≡ behind pre ends (drop depth key)
    get_slot-chain zero f depth pre lt = rw (chain_zero bot pre) (bot_reads f depth pre lt)
    get_slot-chain (suc k) zero depth pre lt = absurd (omega arith)
    get_slot-chain (suc k) (suc f) depth pre lt = elim (Bool-cases (ltb 16 (length pre))) [
      | inr short ↦ rw (chain_short k bot pre short) (bot_reads (suc f) depth pre lt)
      | inl long ↦
          let s = chain k bot (drop 17 pre) in
          let found = behind (drop 17 pre) ends in
          rw (chain_long k bot pre long) (
            get_slot-single f key depth (take 16 pre) (get_or pre 16 0) s found
              (λ d below e l. rw (← e) (get_slot-chain k f d (drop 17 pre) (rw e l))) lt)
          ∙ sym (behind_parts (take 16 pre) (get_or pre 16 0) (drop 17 pre) ends (drop depth key))
          ∙ ap (λ t. behind t ends (drop depth key))
              (sym (cut_at 16 pre 0 (ltb→lt 16 (length pre) long)))
    ]
