-- ===== src/Tree/NodeReads.antt =====
-- What a lookup finds in a node after one of its entries changed.
use artmap.Prelude.{
  ℕ, zero, suc, ◌+◌, ◌<◌, ◌≡◌, refl, sym, ap, ◌∙◌, true, inl, inr, Option, none, some, [], ◌∷◌,
  length, drop, if◌then◌else◌, ◌==◌, ==_refl, Bool-cases, arith,
}
use artmap.Prelude.Bytes.{Key, is_prefix_of, Diverge}
use artmap.Prelude.Entries.{insert, replace, find-insert, find-replace}
use artmap.Tree.{
  Leaf, Slot, null, leaf, inner, Node, node, prefix, exact_leaf, find_child, insert_child,
  replace_child, to_entries, to_entries-of_entries,
}
use artmap.Tree.Read.{get_slot, follow}
use artmap.Tree.Look.{behind, behind_cong, at_byte, drop_below, length_below, get_slot-inner}
use artmap.Tree.LeafSplit.{over}

module _ {ℓ} {A : Type ℓ} where
  -- Behind a prefix, only the strings that continue it matter.
  pub behind_cong_if :
      (p : Key) (f g : Key → Option A) (rest : Key)
      → (is_prefix_of p rest ≡ true → f (drop (length p) rest) ≡ g (drop (length p) rest))
      → behind p f rest ≡ behind p g rest
  behind_cong_if p f g rest h = ground (arith, h)

  pub over-at_byte :
      (c : ℕ) (p after : Key) (found : Key → Option A) (r : Key)
      → Diverge (c ∷ p) after
      → over after none (at_byte c found) r ≡ at_byte c found r
  over-at_byte c p [] found [] d = refl
  over-at_byte c p [] found (b ∷ r) d = refl
  over-at_byte c p (a ∷ after) found [] d = refl
  over-at_byte c p (a ∷ after) found (b ∷ r) d = ground arith

module _ {ℓ} {V : Type ℓ} where
  -- `n'` is `n` with `s` at `byte`.
  pub record Rewired (byte : ℕ) (s : Slot V) (n n' : Node V) : Type ℓ where
    pub same_prefix : prefix n' ≡ prefix n
    pub same_exact : exact_leaf n' ≡ exact_leaf n
    pub finds : (b : ℕ) → find_child b n' ≡ (if byte == b then some s else find_child b n)

  pub insert_child-Rewired :
      (byte : ℕ) (s : Slot V) (n : Node V) → Rewired byte s n (insert_child byte s n)
  unfolding insert_child find_child
  insert_child-Rewired byte s (node ty p ex cs) = record {
    same_prefix = refl;
    same_exact = refl;
    finds = λ b.
        rw (to_entries-of_entries (insert byte s (to_entries cs)))
          (find-insert byte b s (to_entries cs));
  }

  pub replace_child-Rewired :
      (byte : ℕ) (s : Slot V) {old : Slot V} (n : Node V)
      → find_child byte n ≡ some old
      → Rewired byte s n (replace_child byte s n)
  unfolding replace_child find_child
  replace_child-Rewired byte s {old} (node ty p ex cs) h = record {
    same_prefix = refl;
    same_exact = refl;
    finds = λ b.
        rw (to_entries-of_entries (replace byte s (to_entries cs)))
          (find-replace byte b s {old = old} (to_entries cs) h);
  }

  -- what stands at a byte
  abbrev pub step : (ℕ → Slot V → Option (Leaf V)) → ℕ → Option (Slot V) → Option (Leaf V)
  step next d none = none
  step next d (some s) = next d s

  pub follow-byte :
      (key : Key) (next : ℕ → Slot V → Option (Leaf V)) (nd : ℕ) (n : Node V) (b : ℕ) (below : Key)
      → follow key next nd n (b ∷ below) ≡ step next (nd + 1) (find_child b n)
  unfolding follow
  follow-byte key next nd n b below = ground arith

  pub follow-end :
      (key : Key) (next : ℕ → Slot V → Option (Leaf V)) (nd : ℕ) (n n' : Node V)
      → exact_leaf n' ≡ exact_leaf n
      → follow key next nd n' [] ≡ follow key next nd n []
  unfolding follow
  follow-end key next nd n n' h = rw h

  pub follow-Rewired :
      (key : Key) (next : ℕ → Slot V → Option (Leaf V)) (nd byte : ℕ) (s : Slot V) (n n' : Node V)
      (after : Key)
      → Rewired byte s n n'
      → ((below : Key)
          → after ≡ byte ∷ below
          → next (nd + 1) s ≡ step next (nd + 1) (find_child byte n))
      → follow key next nd n' after ≡ follow key next nd n after
  follow-Rewired key next nd byte s n n' [] w h = follow-end key next nd n n' w.same_exact
  follow-Rewired key next nd byte s n n' (b ∷ below) w h = elim (Bool-cases (byte == b)) [
    | inr other ↦
        follow-byte key next nd n' b below
        ∙ ap (step next (nd + 1)) (w.finds b ∙ ap (λ t. if t then some s else find_child b n) other)
        ∙ sym (follow-byte key next nd n b below)
    | inl same ↦
        let e : byte ≡ b = ground arith in
        follow-byte key next nd n' b below
        ∙ ap (step next (nd + 1)) (w.finds b ∙ ap (λ t. if t then some s else find_child b n) same)
        ∙ h below (rw e)
        ∙ ap (λ k. step next (nd + 1) (find_child k n)) e
        ∙ sym (follow-byte key next nd n b below)
  ]

  pub follow-Rewired_hit :
      (key : Key) (next : ℕ → Slot V → Option (Leaf V)) (nd byte : ℕ) (s : Slot V) (n n' : Node V)
      (below : Key)
      → Rewired byte s n n'
      → follow key next nd n' (byte ∷ below) ≡ next (nd + 1) s
  follow-Rewired_hit key next nd byte s n n' below w =
      follow-byte key next nd n' byte below
      ∙ ap (step next (nd + 1))
          (w.finds byte ∙ ap (λ t. if t then some s else find_child byte n) (==_refl byte))

  pub follow_cong :
      (key : Key) (next next' : ℕ → Slot V → Option (Leaf V)) (nd nd' : ℕ) (n : Node V)
      (after : Key)
      → ((b : ℕ) (below : Key) (s : Slot V)
          → after ≡ b ∷ below
          → next (nd + 1) s ≡ next' (nd' + 1) s)
      → follow key next nd n after ≡ follow key next' nd' n after
  unfolding follow
  follow_cong key next next' nd nd' n [] h = refl
  follow_cong key next next' nd nd' n (b ∷ below) h =
      follow-byte key next nd n b below
      ∙ here (find_child b n)
      ∙ sym (follow-byte key next' nd' n b below)
    where
      here : (o : Option (Slot V)) → step next (nd + 1) o ≡ step next' (nd' + 1) o
      here none = refl
      here (some s) = h b below s refl

  -- More fuel changes nothing.
  pub get_slot_fuel :
      (f g : ℕ) (key : Key) (d : ℕ) (s : Slot V)
      → length (drop d key) < f
      → length (drop d key) < g
      → get_slot f key d s ≡ get_slot g key d s
  get_slot_fuel zero g key d s lf lg = absurd (omega arith)
  get_slot_fuel (suc f) zero key d s lf lg = absurd (omega arith)
  get_slot_fuel (suc f) (suc g) key d (inner n) lf lg =
      get_slot-inner f key d n
      ∙ behind_cong (prefix n) (follow key (get_slot f key) (d + length (prefix n)) n)
          (follow key (get_slot g key) (d + length (prefix n)) n) (drop d key)
          (follow_cong key (get_slot f key) (get_slot g key) (d + length (prefix n))
            (d + length (prefix n)) n (drop (length (prefix n)) (drop d key))
            (λ b below s e.
              let q = length_below (drop d key) (length (prefix n)) e in
              let r = ap length (drop_below key d (length (prefix n)) e) in
              get_slot_fuel f g key (d + length (prefix n) + 1) s (omega arith) (omega arith)))
      ∙ sym (get_slot-inner g key d n)
  get_slot_fuel (suc f) (suc g) key d null lf lg = unfold get_slot in refl
  get_slot_fuel (suc f) (suc g) key d (leaf l) lf lg = unfold get_slot in refl
