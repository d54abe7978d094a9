-- ===== src/Tree/InsertNode.antt =====
-- What a lookup finds after an insert sets the exact leaf of a node or changes one of its slots.
use artmap.Prelude.{
  ℕ, suc, ◌+◌, ◌≡◌, refl, sym, ap, ◌∙◌, true, false, Option, none, some, [], ◌∷◌, ◌++◌, length,
  drop, if◌then◌else◌,
}
use mathlib.Core.Bool.{false≢true}
use artmap.Prelude.Bytes.{Key, bytes_eq, bytes_eq_refl, is_prefix_of}
use artmap.Tree.{Leaf, Slot, inner, Node, node, prefix, exact_leaf, find_child, set_exact_leaf}
use artmap.Tree.Read.{conclude, conclude_exact, get_slot, follow}
use artmap.Tree.Write.{Mode, replace, insert_if_absent, insert_exact}
use artmap.Tree.Wf.{EndsAt}
use artmap.Tree.Look.{get_slot-inner}
use artmap.Tree.NodeReads.{behind_cong_if, Rewired, follow-Rewired, follow-Rewired_hit, step}
use artmap.Tree.InsertLeaf.{holder, conclude_hit}
use artmap.Tree.Stands.{Stands, Stands-end}

module _ {ℓ} {V : Type ℓ} where
  -- A key that continues the prefix is looked up behind it.
  pub get_slot_through :
      (f : ℕ) (key : Key) (depth : ℕ) (n : Node V) (after : Key)
      → is_prefix_of (prefix n) (drop depth key) ≡ true
      → drop (length (prefix n)) (drop depth key) ≡ after
      → get_slot (suc f) key depth (inner n)
        ≡ follow key (get_slot f key) (depth + length (prefix n)) n after
  get_slot_through f key depth n after ip e =
      get_slot-inner f key depth n
      ∙ ap
          (λ t.
            if t
            then follow key (get_slot f key) (depth + length (prefix n)) n
                (drop (length (prefix n)) (drop depth key))
            else none)
          ip
      ∙ ap (follow key (get_slot f key) (depth + length (prefix n)) n) e

  -- Nodes with one prefix read alike if they do behind it.
  pub get_slot_alike :
      (f : ℕ) (key : Key) (depth : ℕ) (n n' : Node V)
      → prefix n' ≡ prefix n
      → (is_prefix_of (prefix n) (drop depth key) ≡ true
          → follow key
              (get_slot f key)
              (depth + length (prefix n))
              n'
              (drop (length (prefix n)) (drop depth key))
            ≡ follow key
                (get_slot f key)
                (depth + length (prefix n))
                n
                (drop (length (prefix n)) (drop depth key)))
      → get_slot (suc f) key depth (inner n') ≡ get_slot (suc f) key depth (inner n)
  get_slot_alike f key depth n n' e h =
      get_slot-inner f key depth n'
      ∙ rw e (
          behind_cong_if (prefix n) (follow key (get_slot f key) (depth + length (prefix n)) n')
            (follow key (get_slot f key) (depth + length (prefix n)) n) (drop depth key) h)
      ∙ sym (get_slot-inner f key depth n)

  follow-set_exact_end :
      (key : Key) (next : ℕ → Slot V → Option (Leaf V)) (nd : ℕ) (new : Leaf V) (n : Node V)
      → follow key next nd (set_exact_leaf (some new) n) [] ≡ conclude key new
  unfolding follow set_exact_leaf
  follow-set_exact_end key next nd new (node ty p ex cs) = refl

  pub follow-set_exact_byte :
      (key : Key) (next : ℕ → Slot V → Option (Leaf V)) (nd : ℕ) (ex' : Option (Leaf V))
      (n : Node V) (b : ℕ) (below : Key)
      → follow key next nd (set_exact_leaf ex' n) (b ∷ below) ≡ follow key next nd n (b ∷ below)
  unfolding follow set_exact_leaf find_child
  follow-set_exact_byte key next nd ex' (node ty p ex cs) b below = refl

  pub prefix-set_exact :
      (ex' : Option (Leaf V)) (n : Node V) → prefix (set_exact_leaf ex' n) ≡ prefix n
  unfolding set_exact_leaf
  prefix-set_exact ex' (node ty p ex cs) = refl

  exact_end :
      (key : Key) (next : ℕ → Slot V → Option (Leaf V)) (nd : ℕ) (n : Node V)
      → follow key next nd n [] ≡ conclude_exact key (exact_leaf n)
  unfolding follow
  exact_end key next nd n = refl

  set_exact_self :
      (f depth : ℕ) (new : Leaf V) (n : Node V)
      → is_prefix_of (prefix n) (drop depth new.key) ≡ true
      → drop (length (prefix n)) (drop depth new.key) ≡ []
      → get_slot (suc f) new.key depth (inner (set_exact_leaf (some new) n)) ≡ some new
  set_exact_self f depth new n ip e =
      get_slot_through f new.key depth (set_exact_leaf (some new) n) []
        (rw (prefix-set_exact (some new) n) ip) (rw (prefix-set_exact (some new) n) e)
      ∙ follow-set_exact_end new.key (get_slot f new.key) _ new n
      ∙ conclude_hit new.key new (bytes_eq_refl new.key)

  -- The key ends in the node: the node holds its leaf.
  pub insert_exact_self :
      (mode : Mode) (f depth : ℕ) (new : Leaf V) (n : Node V) (path : Key) (ex : Option (Leaf V))
      → exact_leaf n ≡ ex
      → EndsAt (path ++ prefix n) ex
      → Stands new.key path depth
      → is_prefix_of (prefix n) (drop depth new.key) ≡ true
      → drop (length (prefix n)) (drop depth new.key) ≡ []
      → get_slot (suc f) new.key depth (insert_exact mode new n ex).slot
        ≡ some (holder new (insert_exact mode new n ex).outcome)
  unfolding insert_exact
  insert_exact_self mode f depth new n path none h w st ip e = set_exact_self f depth new n ip e
  insert_exact_self replace f depth new n path (some old) h w st ip e =
      set_exact_self f depth new n ip e
  insert_exact_self insert_if_absent f depth new n path (some old) h w st ip e =
      get_slot_through f new.key depth n [] ip e
      ∙ exact_end new.key (get_slot f new.key) (depth + length (prefix n)) n
      ∙ ap (conclude_exact new.key) h
      ∙ (unfold conclude_exact in
          conclude_hit new.key old (
            ap (λ t. bytes_eq t new.key)
              (w ∙ sym (Stands-end new.key path (prefix n) depth st ip e))
            ∙ bytes_eq_refl new.key))

  set_exact_kept :
      (f : ℕ) (key : Key) (depth : ℕ) (new : Leaf V) (n : Node V) (path : Key)
      → Stands new.key path depth
      → Stands key path depth
      → bytes_eq new.key key ≡ false
      → is_prefix_of (prefix n) (drop depth new.key) ≡ true
      → drop (length (prefix n)) (drop depth new.key) ≡ []
      → get_slot (suc f) key depth (inner (set_exact_leaf (some new) n))
        ≡ get_slot (suc f) key depth (inner n)
  set_exact_kept f key depth new n path sn sk ne ip e =
      get_slot_alike f key depth n (set_exact_leaf (some new) n) (prefix-set_exact (some new) n)
        (λ iq. behind_it (drop (length (prefix n)) (drop depth key)) refl iq)
    where
      behind_it :
          (after : Key)
          → drop (length (prefix n)) (drop depth key) ≡ after
          → is_prefix_of (prefix n) (drop depth key) ≡ true
          → follow key
              (get_slot f key)
              (depth + length (prefix n))
              (set_exact_leaf (some new) n)
              after
            ≡ follow key (get_slot f key) (depth + length (prefix n)) n after
      behind_it [] h iq = absurd (
          false≢true (
            sym ne
            ∙ ap (λ t. bytes_eq t key)
                (Stands-end new.key path (prefix n) depth sn ip e
                  ∙ sym (Stands-end key path (prefix n) depth sk iq h))
            ∙ bytes_eq_refl key))
      behind_it (b ∷ below) h iq =
          follow-set_exact_byte key (get_slot f key) (depth + length (prefix n)) (some new) n b
            below

  -- Every other key reads as before.
  pub insert_exact_kept :
      (mode : Mode) (f : ℕ) (key : Key) (depth : ℕ) (new : Leaf V) (n : Node V) (path : Key)
      (ex : Option (Leaf V))
      → Stands new.key path depth
      → Stands key path depth
      → bytes_eq new.key key ≡ false
      → is_prefix_of (prefix n) (drop depth new.key) ≡ true
      → drop (length (prefix n)) (drop depth new.key) ≡ []
      → get_slot (suc f) key depth (insert_exact mode new n ex).slot
        ≡ get_slot (suc f) key depth (inner n)
  unfolding insert_exact
  insert_exact_kept mode f key depth new n path none sn sk ne ip e =
      set_exact_kept f key depth new n path sn sk ne ip e
  insert_exact_kept replace f key depth new n path (some old) sn sk ne ip e =
      set_exact_kept f key depth new n path sn sk ne ip e
  insert_exact_kept insert_if_absent f key depth new n path (some old) sn sk ne ip e = refl

  -- A node with one slot rewired: the keys that pass through the slot, and the others.
  pub Rewired-hit :
      (f : ℕ) (key : Key) (depth byte : ℕ) {below : Key} (s : Slot V) (n n' : Node V)
      → Rewired byte s n n'
      → is_prefix_of (prefix n) (drop depth key) ≡ true
      → drop (length (prefix n)) (drop depth key) ≡ byte ∷ below
      → get_slot (suc f) key depth (inner n') ≡ get_slot f key (depth + length (prefix n) + 1) s
  Rewired-hit f key depth byte {below} s n n' w ip e =
      get_slot_through f key depth n' (byte ∷ below) (rw w.same_prefix ip) (rw w.same_prefix e)
      ∙ follow-Rewired_hit key (get_slot f key) (depth + length (prefix n')) byte s n n' below w
      ∙ ap (λ t. get_slot f key (depth + length t + 1) s) w.same_prefix

  pub Rewired-kept :
      (f : ℕ) (key : Key) (depth byte : ℕ) (s : Slot V) (n n' : Node V)
      → Rewired byte s n n'
      → ((below : Key)
          → is_prefix_of (prefix n) (drop depth key) ≡ true
          → drop (length (prefix n)) (drop depth key) ≡ byte ∷ below
          → get_slot f key (depth + length (prefix n) + 1) s
            ≡ step (get_slot f key) (depth + length (prefix n) + 1) (find_child byte n))
      → get_slot (suc f) key depth (inner n') ≡ get_slot (suc f) key depth (inner n)
  Rewired-kept f key depth byte s n n' w h = get_slot_alike f key depth n n' w.same_prefix (λ ip.
      follow-Rewired key (get_slot f key) (depth + length (prefix n)) byte s n n'
        (drop (length (prefix n)) (drop depth key)) w (λ below e. h below ip e))
