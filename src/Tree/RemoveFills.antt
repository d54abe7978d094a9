-- ===== src/Tree/RemoveFills.antt =====
-- A remove of src/raw/remove.rs leaves no empty node, once its follow-up has run.
use artmap.Prelude.{
  ℕ, zero, suc, ◌+◌, ◌≡◌, refl, Bool, true, false, inl, inr, Option, none, some, [], ◌∷◌, length,
  drop, Bool-cases, if◌then◌else◌, arith,
}
use artmap.Prelude.Bytes.{Key, is_prefix_of}
use artmap.Tree.{Leaf, Slot, null, leaf, inner, Node, prefix, exact_leaf, find_child, remove_child}
use artmap.Tree.Remove.{
  Taken, exact, child, nothing, Removed, emptied_by, take_out, take_leaf, relink, relink_all,
  remove_exact, remove_at, remove_below, remove_root_leaf, remove_slot, finish, finished,
}
use artmap.Tree.Filled.{
  Filled, FilledNode, Kids, FilledNode-Kids, remove_child-Kids, exact_out-Filled, child_out-Filled,
}
use artmap.Tree.Unlinks.{Due, Dues, found-Filled, shrunk-Due, replaced-Due}

-- What a remove leaves, if it returns.
abbrev pub Fills {ℓ} : {V : Type ℓ} → Option (Removed V) → Type 0
Fills none = Unit
Fills (some d) = Filled d.slot

module _ {ℓ} {V : Type ℓ} (key : Key) (matches : Leaf V → Bool) (confirm : Leaf V → Option ℕ) where
  take_leaf-Dues :
      (depth : ℕ) (taken : Taken) (l : Leaf V) (n : Node V)
      → (emptied_by taken n ≡ false → FilledNode (take_out taken n))
      → Dues key depth (take_leaf matches confirm taken l n)
  unfolding take_leaf
  take_leaf-Dues depth taken l n w = elim (Bool-cases (matches l)) [
    | inr other ↦ rw other tt
    | inl same ↦ rw same (confirmed (confirm l))
  ]
    where
      kept : Filled (if emptied_by taken n then null else inner (take_out taken n))
      kept = elim (Bool-cases (emptied_by taken n)) [
        | inl empty ↦ rw empty tt
        | inr stays ↦ rw stays (w stays)
      ]

      confirmed :
          (o : Option ℕ)
          → Dues key depth (elim o [
            | none ↦ none
            | some count ↦ some (record {
              slot = if emptied_by taken n then null else inner (take_out taken n);
              taken_leaf = l;
              count = count;
              follow_up = false;
            })
          ])
      confirmed none = tt
      confirmed (some count) = kept

  root_leaf-Dues : (depth : ℕ) (l : Leaf V) → Dues key depth (remove_root_leaf matches confirm l)
  unfolding remove_root_leaf
  root_leaf-Dues depth l = elim (Bool-cases (matches l)) [
    | inr other ↦ rw other tt
    | inl same ↦ rw same (confirmed (confirm l))
  ]
    where
      confirmed :
          (o : Option ℕ)
          → Dues key depth (elim o [
            | none ↦ none
            | some count ↦
                some (record { slot = null; taken_leaf = l; count = count; follow_up = false })
          ])
      confirmed none = tt
      confirmed (some count) = tt

  module _ (depth byte : ℕ) (n : Node V) {below : Key}
      (ip : is_prefix_of (prefix n) (drop depth key) ≡ true)
      (e : drop (length (prefix n)) (drop depth key) ≡ byte ∷ below) (k : Kids n) where
    relink-Due :
        (s : Slot V) {c : Slot V} (d : Removed V)
        → find_child byte n ≡ some c
        → Due key d.follow_up (depth + length (prefix n) + 1) s
        → Due key (relink byte n d s).follow_up depth (relink byte n d s).slot
    unfolding relink
    relink-Due null d h w =
        shrunk-Due key depth (remove_child byte n) (emptied_by nothing (remove_child byte n)) refl
          (remove_child-Kids byte n k)
    relink-Due (leaf l) d h w = replaced-Due key depth byte (leaf l) n d.follow_up ip e h k w
    relink-Due (inner m) d h w = replaced-Due key depth byte (inner m) n d.follow_up ip e h k w

    relink_all-Dues :
        {c : Slot V} (o : Option (Removed V))
        → find_child byte n ≡ some c
        → Dues key (depth + length (prefix n) + 1) o
        → Dues key depth (relink_all byte n o)
    unfolding relink_all
    relink_all-Dues none h w = tt
    relink_all-Dues (some d) h w = relink-Due d.slot d h w

    remove_at-Dues :
        (next : Slot V → Option (Removed V)) (o : Option (Slot V))
        → find_child byte n ≡ o
        → ((c : Slot V) → Filled c → Dues key (depth + length (prefix n) + 1) (next c))
        → Dues key depth (remove_at matches confirm next byte n o)
    unfolding remove_at
    remove_at-Dues next none h go = tt
    remove_at-Dues next (some null) h go = tt
    remove_at-Dues next (some (leaf l)) h go =
        take_leaf-Dues depth (child byte) l n (λ stays. child_out-Filled byte n h stays k)
    remove_at-Dues next (some (inner c)) h go =
        relink_all-Dues (next (inner c)) h (go (inner c) (found-Filled byte n k h))

  remove_exact-Dues :
      (depth : ℕ) (n : Node V) (o : Option (Leaf V))
      → Kids n
      → Dues key depth (remove_exact matches confirm n o)
  unfolding remove_exact
  remove_exact-Dues depth n none k = tt
  remove_exact-Dues depth n (some l) k =
      take_leaf-Dues depth exact l n (λ stays. exact_out-Filled n stays k)

  remove_below-Dues :
      (next : ℕ → Slot V → Option (Removed V)) (depth : ℕ) (n : Node V) (after : Key)
      → is_prefix_of (prefix n) (drop depth key) ≡ true
      → drop (length (prefix n)) (drop depth key) ≡ after
      → Kids n
      → ((d : ℕ) (c : Slot V) → Filled c → Dues key d (next d c))
      → Dues key depth (remove_below matches confirm next (depth + length (prefix n)) n after)
  unfolding remove_below
  remove_below-Dues next depth n [] ip e k go = remove_exact-Dues depth n (exact_leaf n) k
  remove_below-Dues next depth n (byte ∷ below) ip e k go =
      remove_at-Dues depth byte n ip e k (next (depth + length (prefix n) + 1)) (find_child byte n)
        refl (go (depth + length (prefix n) + 1))

  pub remove_slot-Dues :
      (fuel depth : ℕ) (s : Slot V)
      → Filled s
      → Dues key depth (remove_slot fuel key matches confirm depth s)
  unfolding remove_slot
  remove_slot-Dues zero depth s w = tt
  remove_slot-Dues (suc fuel) depth null w = tt
  remove_slot-Dues (suc fuel) depth (leaf l) w = root_leaf-Dues depth l
  remove_slot-Dues (suc fuel) depth (inner n) w =
      elim (Bool-cases (is_prefix_of (prefix n) (drop depth key))) [
        | inr out ↦ rw out tt
        | inl ip ↦ rw ip (
            remove_below-Dues (remove_slot fuel key matches confirm) depth n
              (drop (length (prefix n)) (drop depth key)) ip refl (FilledNode-Kids n w)
              (remove_slot-Dues fuel))
      ]

  finish-Filled :
      (d : Removed V) (b : Bool) → d.follow_up ≡ b → Due key b 0 d.slot → Filled (finish key d).slot
  unfolding finish
  finish-Filled d false e w = rw e w
  finish-Filled d true e w = rw e (w (suc (length key)) (omega arith))

  pub finished-Fills : (o : Option (Removed V)) → Dues key 0 o → Fills (finished key o)
  unfolding finished
  finished-Fills none w = tt
  finished-Fills (some d) w = finish-Filled d d.follow_up refl w
