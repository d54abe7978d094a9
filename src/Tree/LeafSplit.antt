-- ===== src/Tree/LeafSplit.antt =====
-- What a lookup finds after an insert at a leaf (`build_chain` of src/raw/write.rs).
use artmap.Prelude.{
  ℕ, zero, suc, ◌+◌, ◌≤◌, ◌<◌, ◌≡◌, refl, ap, ◌∙◌, Option, none, [], ◌∷◌, length, drop, take,
  if◌then◌else◌, ◌==◌, ==_refl, arith,
}
use artmap.Prelude.Bytes.{Key, is_prefix_of, Diverge}
use artmap.Prelude.Entries.{find, insert, find-insert}
use artmap.Tree.{
  node4, Leaf, Slot, leaf, inner, Node, node, prefix, find_child, fresh, insert_child, store_prefix,
  set_exact_leaf, to_entries-of_entries, to_entries,
}
use artmap.Tree.Read.{conclude, get_slot, follow}
use artmap.Tree.Write.{hang, bottom, build_chain}
use artmap.Tree.Look.{behind, behind_cong, length_below, get_slot-inner}
use artmap.Tree.Chain.{get_slot-chain}

module _ {ℓ} {A : Type ℓ} where
  -- `x` at the first byte of `e`, or at the end where `e` ends, before what was found there.
  abbrev pub over : Key → Option A → (Key → Option A) → Key → Option A
  over [] x found [] = x
  over [] x found (b ∷ r) = found (b ∷ r)
  over (c ∷ e) x found [] = found []
  over (c ∷ e) x found (b ∷ r) = if c == b then x else found (b ∷ r)

  pub over_self : (e : Key) (x : Option A) (found : Key → Option A) → over e x found e ≡ x
  over_self [] x found = refl
  over_self (c ∷ e) x found = rw (==_refl c)

  -- Where two byte strings part, one does not hide the other.
  pub over-Diverge :
      (a b : Key) (x : Option A) (found : Key → Option A)
      → Diverge a b
      → (a ≡ b → ⊥)
      → over b x found a ≡ found a
  over-Diverge [] [] x found d n = absurd (n refl)
  over-Diverge [] (y ∷ b) x found d n = refl
  over-Diverge (z ∷ a) [] x found d n = refl
  over-Diverge (z ∷ a) (y ∷ b) x found d n = ground arith

  pub over-none :
      (e : Key) (found : Key → Option A) (r : Key) → found r ≡ none → over e none found r ≡ none
  over-none [] found [] h = refl
  over-none [] found (b ∷ r) h = h
  over-none (c ∷ e) found [] h = h
  over-none (c ∷ e) found (b ∷ r) h = ground arith

  pub behind-take :
      (n : ℕ) (r : Key) (found : Key → Option A)
      → n ≤ length r
      → behind (take n r) found r ≡ found (drop n r)
  unfolding is_prefix_of
  behind-take zero r found h = refl
  behind-take (suc n) [] found h = absurd (omega arith)
  behind-take (suc n) (x ∷ r) found h = rw (==_refl x) (behind-take n r found (omega arith))

  pub behind-none :
      (p : Key) (found : Key → Option A) (r : Key)
      → found (drop (length p) r) ≡ none
      → behind p found r ≡ none
  behind-none p found r h = ground arith

module _ {ℓ} {V : Type ℓ} where
  pub follow-hang :
      (key : Key) (next : ℕ → Slot V → Option (Leaf V)) (nd : ℕ) (e : Key) (l : Leaf V) (n : Node V)
      (after : Key)
      → ((b : ℕ) (below : Key) → after ≡ b ∷ below → next (nd + 1) (leaf l) ≡ conclude key l)
      → follow key next nd (hang e l n) after ≡ over e (conclude key l) (follow key next nd n) after
  unfolding follow hang set_exact_leaf insert_child find_child
  follow-hang key next nd [] l (node ty p ex cs) [] h = refl
  follow-hang key next nd [] l (node ty p ex cs) (b ∷ r) h = refl
  follow-hang key next nd (c ∷ e) l (node ty p ex cs) [] h = refl
  follow-hang key next nd (c ∷ e) l (node ty p ex cs) (b ∷ r) h = ground (
    arith,
    h b r refl,
    to_entries-of_entries (insert c (leaf l) (to_entries cs)),
    find-insert c b (leaf l) (to_entries cs),
  )

  pub prefix-hang : (e : Key) (l : Leaf V) (n : Node V) → prefix (hang e l n) ≡ prefix n
  unfolding hang set_exact_leaf insert_child
  prefix-hang [] l (node ty p ex cs) = refl
  prefix-hang (c ∷ e) l (node ty p ex cs) = refl

  -- The step below a byte reaches a leaf that hangs there.
  pub get_slot-leaf :
      (f : ℕ) (key : Key) (d : ℕ) (l : Leaf V) → 0 < f → get_slot f key d (leaf l) ≡ conclude key l
  unfolding get_slot
  get_slot-leaf zero key d l h = absurd (omega arith)
  get_slot-leaf (suc f) key d l h = refl

  follow-fresh :
      (key : Key) (next : ℕ → Slot V → Option (Leaf V)) (nd : ℕ) (p after : Key)
      → follow key next nd (store_prefix p (fresh node4)) after ≡ none
  unfolding follow store_prefix fresh find_child find
  follow-fresh key next nd p [] = refl
  follow-fresh key next nd p (b ∷ r) = refl

  -- What the bottom node of a chain holds.
  abbrev pub pair_reads : Key → Key → Leaf V → Key → Leaf V → Key → Option (Leaf V)
  pair_reads key ea a eb b = over eb (conclude key b) (over ea (conclude key a) (λ _. none))

  pub over_cong :
      (e : Key) (x : Option (Leaf V)) (f g : Key → Option (Leaf V)) (r : Key)
      → f r ≡ g r
      → over e x f r ≡ over e x g r
  over_cong [] x f g [] h = refl
  over_cong [] x f g (b ∷ r) h = h
  over_cong (c ∷ e) x f g [] h = h
  over_cong (c ∷ e) x f g (b ∷ r) h = ap (λ t. if c == b then x else t) h

  prefix-bottom :
      (ea : Key) (a : Leaf V) (eb : Key) (b : Leaf V) (p : Key) → prefix (bottom ea a eb b p) ≡ p
  unfolding bottom store_prefix fresh
  prefix-bottom ea a eb b p =
      prefix-hang eb b (hang ea a (store_prefix p (fresh node4)))
      ∙ prefix-hang ea a (store_prefix p (fresh node4))

  get_slot-bottom :
      (key ea : Key) (a : Leaf V) (eb : Key) (b : Leaf V) (f depth : ℕ) (p : Key)
      → length (drop depth key) < f
      → get_slot f key depth (inner (bottom ea a eb b p))
        ≡ behind p (pair_reads key ea a eb b) (drop depth key)
  get_slot-bottom key ea a eb b zero depth p lt = absurd (omega arith)
  get_slot-bottom key ea a eb b (suc f) depth p lt =
      get_slot-inner f key depth (bottom ea a eb b p)
      ∙ rw (prefix-bottom ea a eb b p) (
          behind_cong p (follow key next nd (bottom ea a eb b p)) (pair_reads key ea a eb b)
            (drop depth key)
            (unfold bottom in
              follow-hang key next nd eb b (hang ea a base) after (reach b)
              ∙ over_cong eb (conclude key b) (follow key next nd (hang ea a base))
                  (over ea (conclude key a) (λ _. none)) after
                  (follow-hang key next nd ea a base after (reach a)
                    ∙ over_cong ea (conclude key a) (follow key next nd base) (λ _. none) after
                        (follow-fresh key next nd p after))))
    where
      next : ℕ → Slot V → Option (Leaf V)
      next = get_slot f key

      nd : ℕ
      nd = depth + length p

      after : Key
      after = drop (length p) (drop depth key)

      base : Node V
      base = store_prefix p (fresh node4)

      reach :
          (l : Leaf V) (c : ℕ) (below : Key)
          → after ≡ c ∷ below
          → next (nd + 1) (leaf l) ≡ conclude key l
      reach l c below e =
          get_slot-leaf f key (nd + 1) l
            (let q = length_below (drop depth key) (length p) e in omega arith)

  -- The chain for two leaves reads as the two, behind what they share.
  pub get_slot-build_chain :
      (key es : Key) (e : Leaf V) (ns : Key) (new : Leaf V) (common f depth : ℕ)
      → length (drop depth key) < f
      → get_slot f key depth (build_chain es e ns new common)
        ≡ behind
            (take common ns)
            (pair_reads key (drop common es) e (drop common ns) new)
            (drop depth key)
  unfolding build_chain
  get_slot-build_chain key es e ns new common f depth lt =
      get_slot-chain key (bottom (drop common es) e (drop common ns) new)
        (pair_reads key (drop common es) e (drop common ns) new)
        (get_slot-bottom key (drop common es) e (drop common ns) new) common f depth
        (take common ns) lt
