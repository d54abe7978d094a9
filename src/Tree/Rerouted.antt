-- ===== src/Tree/Rerouted.antt =====
-- What a lookup finds in a node after an entry of it went or changed, and in a node with none.
use artmap.Prelude.{
  ℕ, zero, suc, ◌+◌, ◌≡◌, refl, sym, ap, ◌∙◌, Bool, true, false, inl, inr, Option, none, some, [],
  ◌∷◌, length, drop, if◌then◌else◌, ◌==◌, ==_refl, Bool-cases, arith,
}
use artmap.Prelude.Bytes.{Key, is_prefix_of}
use artmap.Prelude.Entries.{Entries, IsSorted, find, remove, find-remove, length-remove}
use artmap.Tree.{
  Leaf, Slot, null, inner, Node, node, prefix, exact_leaf, entries, find_child, remove_child,
  replace_child, set_exact_leaf, to_entries, to_entries-of_entries,
}
use artmap.Tree.Read.{get_slot, follow, conclude_exact}
use artmap.Tree.Remove.{exact, child, nothing, emptied_by}
use artmap.Tree.Look.{get_slot-inner, behind}
use artmap.Tree.NodeReads.{step, follow-byte, follow-end, replace_child-Rewired}
use artmap.Tree.InsertNode.{get_slot_through, get_slot_alike}

module _ {ℓ} {V : Type ℓ} where
  -- `n'` is `n` with `o` at `byte`.
  pub record Rerouted (byte : ℕ) (o : Option (Slot V)) (n n' : Node V) : Type ℓ where
    pub same_prefix : prefix n' ≡ prefix n
    pub same_exact : exact_leaf n' ≡ exact_leaf n
    pub finds : (b : ℕ) → find_child b n' ≡ (if byte == b then o else find_child b n)

  pub remove_child-Rerouted :
      (byte : ℕ) (n : Node V) → IsSorted (entries n) → Rerouted byte none n (remove_child byte n)
  unfolding remove_child find_child
  remove_child-Rerouted byte (node ty p ex cs) sorted = record {
    same_prefix = refl;
    same_exact = refl;
    finds = λ b.
        rw (to_entries-of_entries (remove byte (to_entries cs)))
          (find-remove byte b (to_entries cs) sorted);
  }

  pub replace_child-Rerouted :
      (byte : ℕ) (s : Slot V) {old : Slot V} (n : Node V)
      → find_child byte n ≡ some old
      → Rerouted byte (some s) n (replace_child byte s n)
  replace_child-Rerouted byte s {old} n h =
      let w = replace_child-Rewired byte s {old = old} n h in
      record { same_prefix = w.same_prefix; same_exact = w.same_exact; finds = w.finds }

  follow-Rerouted :
      (key : Key) (next : ℕ → Slot V → Option (Leaf V)) (nd byte : ℕ) (o : Option (Slot V))
      (n n' : Node V) (after : Key)
      → Rerouted byte o n n'
      → ((below : Key)
          → after ≡ byte ∷ below
          → step next (nd + 1) o ≡ step next (nd + 1) (find_child byte n))
      → follow key next nd n' after ≡ follow key next nd n after
  follow-Rerouted key next nd byte o n n' [] w h = follow-end key next nd n n' w.same_exact
  follow-Rerouted key next nd byte o n n' (b ∷ below) w h = elim (Bool-cases (byte == b)) [
    | inr other ↦
        follow-byte key next nd n' b below
        ∙ ap (step next (nd + 1)) (w.finds b ∙ ap (λ t. if t then o else find_child b n) other)
        ∙ sym (follow-byte key next nd n b below)
    | inl same ↦
        let e : byte ≡ b = ground arith in
        follow-byte key next nd n' b below
        ∙ ap (step next (nd + 1)) (w.finds b ∙ ap (λ t. if t then o else find_child b n) same)
        ∙ h below (rw e)
        ∙ ap (λ k. step next (nd + 1) (find_child k n)) e
        ∙ sym (follow-byte key next nd n b below)
  ]

  -- The keys that pass through the byte, and the others.
  pub Rerouted-hit :
      (f : ℕ) (key : Key) (depth byte : ℕ) {below : Key} (o : Option (Slot V)) (n n' : Node V)
      → Rerouted byte o n n'
      → is_prefix_of (prefix n) (drop depth key) ≡ true
      → drop (length (prefix n)) (drop depth key) ≡ byte ∷ below
      → get_slot (suc f) key depth (inner n')
        ≡ step (get_slot f key) (depth + length (prefix n) + 1) o
  Rerouted-hit f key depth byte {below} o n n' w ip e =
      get_slot_through f key depth n' (byte ∷ below) (rw w.same_prefix ip) (rw w.same_prefix e)
      ∙ follow-byte key (get_slot f key) (depth + length (prefix n')) n' byte below
      ∙ ap (step (get_slot f key) (depth + length (prefix n') + 1))
          (w.finds byte ∙ ap (λ t. if t then o else find_child byte n) (==_refl byte))
      ∙ ap (λ t. step (get_slot f key) (depth + length t + 1) o) w.same_prefix

  pub Rerouted-kept :
      (f : ℕ) (key : Key) (depth byte : ℕ) (o : Option (Slot V)) (n n' : Node V)
      → Rerouted byte o n n'
      → ((below : Key)
          → is_prefix_of (prefix n) (drop depth key) ≡ true
          → drop (length (prefix n)) (drop depth key) ≡ byte ∷ below
          → step (get_slot f key) (depth + length (prefix n) + 1) o
            ≡ step (get_slot f key) (depth + length (prefix n) + 1) (find_child byte n))
      → get_slot (suc f) key depth (inner n') ≡ get_slot (suc f) key depth (inner n)
  Rerouted-kept f key depth byte o n n' w h = get_slot_alike f key depth n n' w.same_prefix (λ ip.
      follow-Rerouted key (get_slot f key) (depth + length (prefix n)) byte o n n'
        (drop (length (prefix n)) (drop depth key)) w (λ below e. h below ip e))

  -- A node without an entry: every lookup in it fails.
  abbrev pub Vacant : Node V → Type ℓ
  Vacant n = (entries n ≡ []) × (exact_leaf n ≡ none)

  follow-Vacant :
      (key : Key) (next : ℕ → Slot V → Option (Leaf V)) (nd : ℕ) (n : Node V) (after : Key)
      → Vacant n
      → follow key next nd n after ≡ none
  unfolding follow conclude_exact find_child find
  follow-Vacant key next nd n [] v = ap (conclude_exact key) v.1
  follow-Vacant key next nd n (b ∷ below) v =
      follow-byte key next nd n b below ∙ ap (λ es. step next (nd + 1) (find b es)) v.0

  behind_nothing :
      (p : Key) (g : Key → Option (Leaf V)) (rest : Key)
      → g (drop (length p) rest) ≡ none
      → behind p g rest ≡ none
  behind_nothing p g rest h = ground (arith, h)

  pub get_slot-Vacant :
      (f : ℕ) (key : Key) (depth : ℕ) (n : Node V)
      → Vacant n
      → get_slot f key depth (inner n) ≡ none
  unfolding get_slot
  get_slot-Vacant zero key depth n v = refl
  get_slot-Vacant (suc f) key depth n v =
      get_slot-inner f key depth n
      ∙ behind_nothing (prefix n) (follow key (get_slot f key) (depth + length (prefix n)) n)
          (drop depth key)
          (follow-Vacant key (get_slot f key) (depth + length (prefix n)) n
            (drop (length (prefix n)) (drop depth key)) v)

  pub get_slot-null : (f : ℕ) (key : Key) (depth : ℕ) → get_slot {V = V} f key depth null ≡ none
  unfolding get_slot
  get_slot-null zero key depth = refl
  get_slot-null (suc f) key depth = refl

  -- An empty node may stand for no node.
  pub get_slot-unlinked :
      (f : ℕ) (key : Key) (depth : ℕ) (empty : Bool) (n : Node V)
      → (empty ≡ true → Vacant n)
      → get_slot f key depth (if empty then null else inner n) ≡ get_slot f key depth (inner n)
  get_slot-unlinked f key depth true n h =
      get_slot-null f key depth ∙ sym (get_slot-Vacant f key depth n (h refl))
  get_slot-unlinked f key depth false n h = refl

  empty_list : (es : Entries (Slot V)) → length es ≡ 0 → es ≡ []
  empty_list [] h = refl
  empty_list (e ∷ es) h = absurd (omega (arith, h))

  -- `emptied_by` says whether the node that is left has no entry.
  pub emptied_by-nothing : (n : Node V) → emptied_by nothing n ≡ true → Vacant n
  unfolding emptied_by
  emptied_by-nothing (node ty p none cs) h = (empty_list (to_entries cs) (ground arith), refl)
  emptied_by-nothing (node ty p (some l) cs) h = absurd (ground arith)

  pub emptied_by-exact : (n : Node V) → emptied_by exact n ≡ true → Vacant (set_exact_leaf none n)
  unfolding emptied_by set_exact_leaf
  emptied_by-exact (node ty p none cs) h = (empty_list (to_entries cs) (ground arith), refl)
  emptied_by-exact (node ty p (some l) cs) h = (empty_list (to_entries cs) (ground arith), refl)

  pub emptied_by-child :
      (byte : ℕ) {old : Slot V} (n : Node V)
      → find_child byte n ≡ some old
      → emptied_by (child byte) n ≡ true
      → Vacant (remove_child byte n)
  unfolding emptied_by remove_child find_child
  emptied_by-child byte {old} (node ty p none cs) f h = (
    to_entries-of_entries (remove byte (to_entries cs))
        ∙ empty_list (remove byte (to_entries cs))
            (let q = length-remove byte {old = old} (to_entries cs) f in ground arith),
    refl,
  )
  emptied_by-child byte {old} (node ty p (some l) cs) f h =
      absurd (let q = length-remove byte {old = old} (to_entries cs) f in ground arith)
