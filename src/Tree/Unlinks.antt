-- ===== src/Tree/Unlinks.antt =====
-- The unlinking of emptied nodes, by a remove of src/raw/remove.rs and by its follow-up.
use artmap.Prelude.{
  ℕ, zero, suc, ◌+◌, ◌<◌, ◌≡◌, refl, sym, ap, ◌∙◌, Bool, true, false, inl, inr, Option, none, some,
  [], ◌∷◌, length, drop, Bool-cases, ==_refl, if◌then◌else◌, arith,
}
use mathlib.Core.Path.{subst}
use artmap.Prelude.Bytes.{Key, is_prefix_of}
use artmap.Prelude.Entries.{find, find-replace, replace}
use artmap.Tree.{
  Slot, null, leaf, inner, Node, node, prefix, entries, find_child, remove_child, replace_child,
  to_entries, to_entries-of_entries,
}
use artmap.Tree.Remove.{
  nothing, Removed, emptied_by, unlink_if_empty, unlink_child, unlink_at, unlink_below,
  unlink_emptied,
}
use artmap.Tree.RemoveParent.{below_lt}
use artmap.Tree.Filled.{
  Filled, FilledNode, Kids, FilledNode-Kids, FilledEntries-find, replace_child-Filled,
  remove_child-Kids, replace_child_twice, remove_child-replace_child, emptied_by-Filled,
  unlink_if_empty-Filled,
}

module _ {ℓ} {V : Type ℓ} where
  pub found-Filled : (b : ℕ) {s : Slot V} (n : Node V) → Kids n → find_child b n ≡ some s → Filled s
  unfolding find_child
  found-Filled b {s} n k h = FilledEntries-find b {s = s} (entries n) k h

  -- The parent of a child that the follow-up has been to.
  unlink_child-Filled :
      (b : ℕ) (n : Node V) (s : Slot V)
      → Kids (remove_child b n)
      → ((t : Slot V) → Filled t → FilledNode (replace_child b t n))
      → Filled s
      → Filled (unlink_child b n s)
  unfolding unlink_child
  unlink_child-Filled b n null k r w = unlink_if_empty-Filled (remove_child b n) k
  unlink_child-Filled b n (leaf l) k r w = r (leaf l) w
  unlink_child-Filled b n (inner m) k r w = r (inner m) w

  unlink_at-Filled :
      (next : Slot V → Slot V) (b : ℕ) (n : Node V) (o : Option (Slot V))
      → find_child b n ≡ o
      → Kids n
      → ((c : Slot V) → Filled c → Filled (next c))
      → Filled (unlink_at next b n o)
  unfolding unlink_at
  unlink_at-Filled next b n none h k go = unlink_if_empty-Filled n k
  unlink_at-Filled next b n (some null) h k go = unlink_if_empty-Filled n k
  unlink_at-Filled next b n (some (leaf l)) h k go = unlink_if_empty-Filled n k
  unlink_at-Filled next b n (some (inner c)) h k go =
      unlink_child-Filled b n (next (inner c)) (remove_child-Kids b n k)
        (λ t w. replace_child-Filled b t n h k w) (go (inner c) (found-Filled b n k h))

  unlink_below-Filled :
      (next : ℕ → Slot V → Slot V) (nd : ℕ) (n : Node V) (after : Key)
      → Kids n
      → ((d : ℕ) (c : Slot V) → Filled c → Filled (next d c))
      → Filled (unlink_below next nd n after)
  unfolding unlink_below
  unlink_below-Filled next nd n [] k go = unlink_if_empty-Filled n k
  unlink_below-Filled next nd n (byte ∷ below) k go =
      unlink_at-Filled (next (nd + 1)) byte n (find_child byte n) refl k (go (nd + 1))

  -- The node that the follow-up comes to may be empty itself.
  unlink_inner-Filled :
      (next : ℕ → Slot V → Slot V) (key : Key) (depth : ℕ) (n : Node V)
      → Kids n
      → ((d : ℕ) (c : Slot V) → Filled c → Filled (next d c))
      → Filled (
          if is_prefix_of (prefix n) (drop depth key)
          then unlink_below next
              (depth + length (prefix n))
              n
              (drop (length (prefix n)) (drop depth key))
          else unlink_if_empty n)
  unlink_inner-Filled next key depth n k go =
      elim (Bool-cases (is_prefix_of (prefix n) (drop depth key))) [
        | inr out ↦ rw out (unlink_if_empty-Filled n k)
        | inl ip ↦ rw ip (
            unlink_below-Filled next (depth + length (prefix n)) n
              (drop (length (prefix n)) (drop depth key)) k go)
      ]

  -- The follow-up keeps a tree without empty nodes.
  unlink_emptied-Filled :
      (fuel : ℕ) (key : Key) (depth : ℕ) (s : Slot V)
      → Filled s
      → Filled (unlink_emptied fuel key depth s)
  unfolding unlink_emptied
  unlink_emptied-Filled zero key depth s w = w
  unlink_emptied-Filled (suc fuel) key depth null w = tt
  unlink_emptied-Filled (suc fuel) key depth (leaf l) w = tt
  unlink_emptied-Filled (suc fuel) key depth (inner n) w =
      unlink_inner-Filled (unlink_emptied fuel key) key depth n (FilledNode-Kids n w)
        (unlink_emptied-Filled fuel key)

  unlink_emptied-Kids :
      (fuel : ℕ) (key : Key) (depth : ℕ) (n : Node V)
      → Kids n
      → Filled (unlink_emptied (suc fuel) key depth (inner n))
  unfolding unlink_emptied
  unlink_emptied-Kids fuel key depth n k =
      unlink_inner-Filled (unlink_emptied fuel key) key depth n k (unlink_emptied-Filled fuel key)

  -- What a remove leaves: no empty node, or none once the follow-up that it asks for has run.
  abbrev pub Due : Key → Bool → ℕ → Slot V → Type 0
  Due key false depth s = Filled s
  Due key true depth s =
      (f : ℕ) → length (drop depth key) < f → Filled (unlink_emptied f key depth s)

  abbrev pub Dues : Key → ℕ → Option (Removed V) → Type 0
  Dues key depth none = Unit
  Dues key depth (some d) = Due key d.follow_up depth d.slot

  module _ (key : Key) where
    -- A node that has lost a child.
    pub shrunk-Due :
        (depth : ℕ) (n : Node V) (b : Bool)
        → emptied_by nothing n ≡ b
        → Kids n
        → Due key b depth (inner n)
    shrunk-Due depth n false e k = emptied_by-Filled n e k
    shrunk-Due depth n true e k = λ f lt. at_end f lt
      where
        at_end :
            (f : ℕ) → length (drop depth key) < f → Filled (unlink_emptied f key depth (inner n))
        at_end zero lt = absurd (omega arith)
        at_end (suc f) lt = unlink_emptied-Kids f key depth n k

    find_child-replaced :
        (byte : ℕ) (s : Slot V) {c : Slot V} (n : Node V)
        → find_child byte n ≡ some c
        → find_child byte (replace_child byte s n) ≡ some s
    unfolding find_child replace_child
    find_child-replaced byte s {c} (node ty p ex cs) h =
        ap (find byte) (to_entries-of_entries (replace byte s (to_entries cs)))
        ∙ find-replace byte byte s {old = c} (to_entries cs) h
        ∙ ap (λ t. if t then some s else find byte (to_entries cs)) (==_refl byte)

    prefix-replace_child :
        (byte : ℕ) (s : Slot V) (n : Node V) → prefix (replace_child byte s n) ≡ prefix n
    unfolding replace_child
    prefix-replace_child byte s (node ty p ex cs) = refl

    -- The follow-up at a node whose child was rewritten.
    unlink_at-replaced :
        (next : Slot V → Slot V) (byte : ℕ) (s : Slot V) {c : Slot V} (n : Node V)
        → find_child byte n ≡ some c
        → Kids n
        → Filled (next s)
        → Filled (unlink_at next byte (replace_child byte s n) (some s))
    unfolding unlink_at
    unlink_at-replaced next byte null n h k w =
        unlink_if_empty-Filled (replace_child byte null n)
          (FilledNode-Kids (replace_child byte null n) (replace_child-Filled byte null n h k tt))
    unlink_at-replaced next byte (leaf l) n h k w =
        unlink_if_empty-Filled (replace_child byte (leaf l) n) (
          FilledNode-Kids (replace_child byte (leaf l) n)
            (replace_child-Filled byte (leaf l) n h k tt))
    unlink_at-replaced next byte (inner m) n h k w =
        unlink_child-Filled byte (replace_child byte (inner m) n) (next (inner m))
          (subst Kids (sym (remove_child-replace_child byte (inner m) n))
            (remove_child-Kids byte n k))
          (λ t v.
            subst FilledNode (sym (replace_child_twice byte (inner m) t n))
              (replace_child-Filled byte t n h k v))
          w

    pub replaced-Due :
        (depth byte : ℕ) {below : Key} (s : Slot V) {c : Slot V} (n : Node V) (b : Bool)
        → is_prefix_of (prefix n) (drop depth key) ≡ true
        → drop (length (prefix n)) (drop depth key) ≡ byte ∷ below
        → find_child byte n ≡ some c
        → Kids n
        → Due key b (depth + length (prefix n) + 1) s
        → Due key b depth (inner (replace_child byte s n))
    replaced-Due depth byte s n false ip e h k w = replace_child-Filled byte s n h k w
    replaced-Due depth byte {below} s n true ip e h k w = λ f lt. at f lt
      where
        at :
            (f : ℕ)
            → length (drop depth key) < f
            → Filled (unlink_emptied f key depth (inner (replace_child byte s n)))
        at zero lt = absurd (omega arith)
        at (suc f) lt =
            unfold unlink_emptied unlink_below in
            rw (prefix-replace_child byte s n, ip, e, find_child-replaced byte s n h)
              (unlink_at-replaced (unlink_emptied f key (depth + length (prefix n) + 1)) byte s n h
                k (w f (below_lt key depth (length (prefix n)) f e lt)))
