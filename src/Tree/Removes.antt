-- ===== src/Tree/Removes.antt =====
-- The remove of a key, by induction on the descent: what it returns, and what it leaves.
use artmap.Prelude.{
  ℕ, zero, suc, ◌+◌, ◌<◌, ◌≡◌, ◌⊎◌, refl, sym, ap, ◌∙◌, true, false, inl, inr, Option, none, some,
  [], ◌∷◌, ◌++◌, length, drop, Bool-cases, arith,
}
use mathlib.Core.Path.{subst}
use artmap.Prelude.Bytes.{Key, bytes_eq, bytes_eq_refl, bytes_eq_sound, is_prefix_of}
use artmap.Tree.{Leaf, Slot, null, leaf, inner, Node, node, prefix, exact_leaf, find_child}
use artmap.Tree.Read.{get_slot, conclude}
use artmap.Tree.Remove.{
  exact, child, Removed, take_out, take_leaf, relink_all, remove_exact, remove_at, remove_below,
  remove_root_leaf, remove_slot,
}
use artmap.Tree.Wf.{Wf, WfNode, WfNode-find, EndsAt}
use artmap.Tree.LeafSplit.{get_slot-leaf}
use artmap.Tree.NodeReads.{step}
use artmap.Tree.InsertLeaf.{conclude_hit, conclude_miss}
use artmap.Tree.InsertBefore.{get_slot-exact, get_slot-byte, get_slot-out}
use artmap.Tree.NodeWf.{set_exact-Wf}
use artmap.Tree.Stands.{Stands, Stands-below, Stands-end}
use artmap.Tree.Rerouted.{get_slot-null, emptied_by-exact, emptied_by-child}
use artmap.Tree.RemoveStep.{
  remove_child-Wf, dropped, Result, of_key, always, take_leaf-Result, entry-dropped, exact-dropped,
}
use artmap.Tree.RemoveParent.{below_lt, relink-Gone}

module _ {ℓ} {V : Type ℓ} (key : Key) where
  root_leaf-Result :
      (path : Key) (depth : ℕ) (l : Leaf V)
      → Result key path depth (leaf l) (remove_root_leaf (of_key key) (always key) l)
  unfolding remove_root_leaf
  root_leaf-Result path depth l = elim (Bool-cases (bytes_eq l.key key)) [
    | inr other ↦
        rw other (λ f lt. get_slot-leaf f key depth l (omega arith) ∙ conclude_miss key l other)
    | inl same ↦ rw same (record {
      was = λ f lt. get_slot-leaf f key depth l (omega arith) ∙ conclude_hit key l same;
      keeps = tt;
      reads = λ f k st lt.
          get_slot-null f k depth ∙ sym (gone same f k lt (Bool-cases (bytes_eq key k)));
    })
  ]
    where
      gone :
          bytes_eq l.key key ≡ true
          → (f : ℕ) (k : Key) → length (drop depth k) < f
          → (bytes_eq key k ≡ true) ⊎ (bytes_eq key k ≡ false)
          → dropped key (λ j. get_slot f j depth (leaf l)) k ≡ none
      gone same f k lt (inl hit) = rw hit refl
      gone same f k lt (inr other) = rw other (
          get_slot-leaf f k depth l (omega arith)
          ∙ conclude_miss k l (ap (λ t. bytes_eq t k) (bytes_eq_sound l.key key same) ∙ other))

  exact-Result :
      (path : Key) (depth : ℕ) (n : Node V) (ex : Option (Leaf V))
      → exact_leaf n ≡ ex
      → WfNode path n
      → EndsAt (path ++ prefix n) ex
      → Stands key path depth
      → is_prefix_of (prefix n) (drop depth key) ≡ true
      → drop (length (prefix n)) (drop depth key) ≡ []
      → Result key path depth (inner n) (remove_exact (of_key key) (always key) n ex)
  unfolding remove_exact take_out
  exact-Result path depth n none x w ends st ip e = λ f lt. at_end f lt
    where
      at_end : (f : ℕ) → length (drop depth key) < f → get_slot f key depth (inner n) ≡ none
      at_end zero lt = absurd (omega arith)
      at_end (suc f) lt =
          get_slot-exact f key path depth n (subst (EndsAt (path ++ prefix n)) (sym x) tt) st ip e
          ∙ x
  exact-Result path depth n (some l) x w ends st ip e =
      take_leaf-Result key path depth exact l n (set_exact_none n w) (emptied_by-exact n) at_end
        (λ same. exact-dropped key path depth n ip e st)
    where
      set_exact_none : (m : Node V) → WfNode path m → WfNode path (take_out exact m)
      set_exact_none m wm = set_exact-Wf path none m wm tt

      at_end :
          (f : ℕ) → length (drop depth key) < f → get_slot f key depth (inner n) ≡ conclude key l
      at_end zero lt = absurd (omega arith)
      at_end (suc f) lt =
          get_slot-exact f key path depth n (subst (EndsAt (path ++ prefix n)) (sym x) ends) st ip e
          ∙ x
          ∙ sym (
              conclude_hit key l (
                ap (λ t. bytes_eq t key) (ends ∙ sym (Stands-end key path (prefix n) depth st ip e))
                ∙ bytes_eq_refl key))

  entry-Result :
      (path : Key) (depth : ℕ) (byte : ℕ) {below : Key} (l : Leaf V) (n : Node V)
      → WfNode path n
      → Stands key path depth
      → is_prefix_of (prefix n) (drop depth key) ≡ true
      → drop (length (prefix n)) (drop depth key) ≡ byte ∷ below
      → find_child byte n ≡ some (leaf l)
      → Result key path depth (inner n) (take_leaf (of_key key) (always key) (child byte) l n)
  unfolding take_out
  entry-Result path depth byte {below} l n w st ip e h =
      take_leaf-Result key path depth (child byte) l n (remove_child-Wf path byte n w h)
        (emptied_by-child byte n h) at_byte
        (λ same. entry-dropped key path depth byte l n w ip e h same)
    where
      at_byte :
          (f : ℕ) → length (drop depth key) < f → get_slot f key depth (inner n) ≡ conclude key l
      at_byte zero lt = absurd (omega arith)
      at_byte (suc f) lt =
          get_slot-byte f key depth n byte below ip e h
          ∙ get_slot-leaf f key (depth + length (prefix n) + 1) l
              (let q = below_lt key depth (length (prefix n)) f e lt in omega arith)

  relink_all-Result :
      (path : Key) (depth byte : ℕ) {below : Key} (c : Slot V) (n : Node V) (o : Option (Removed V))
      → WfNode path n
      → Stands key path depth
      → is_prefix_of (prefix n) (drop depth key) ≡ true
      → drop (length (prefix n)) (drop depth key) ≡ byte ∷ below
      → find_child byte n ≡ some c
      → Result key ((path ++ prefix n) ++ byte ∷ []) (depth + length (prefix n) + 1) c o
      → Result key path depth (inner n) (relink_all byte n o)
  unfolding relink_all
  relink_all-Result path depth byte {below} c n (some d) w st ip e h r =
      relink-Gone key path depth byte c d.slot n d refl w st ip e h r
  relink_all-Result path depth byte {below} c n none w st ip e h r = λ f lt. at_byte f lt
    where
      at_byte : (f : ℕ) → length (drop depth key) < f → get_slot f key depth (inner n) ≡ none
      at_byte zero lt = absurd (omega arith)
      at_byte (suc f) lt =
          get_slot-byte f key depth n byte below ip e h
          ∙ r f (below_lt key depth (length (prefix n)) f e lt)

  missing-Result :
      (path : Key) (depth byte : ℕ) {below : Key} (n : Node V) (o : Option (Slot V))
      → is_prefix_of (prefix n) (drop depth key) ≡ true
      → drop (length (prefix n)) (drop depth key) ≡ byte ∷ below
      → find_child byte n ≡ o
      → ((f : ℕ) (d : ℕ) → step (get_slot f key) d o ≡ none)
      → (f : ℕ) → length (drop depth key) < f
      → get_slot f key depth (inner n) ≡ none
  missing-Result path depth byte {below} n o ip e h m zero lt = absurd (omega arith)
  missing-Result path depth byte {below} n o ip e h m (suc f) lt =
      get_slot-byte f key depth n byte below ip e h ∙ m f (depth + length (prefix n) + 1)

  at-Result :
      (next : Slot V → Option (Removed V)) (path : Key) (depth byte : ℕ) {below : Key} (n : Node V)
      (o : Option (Slot V))
      → find_child byte n ≡ o
      → WfNode path n
      → Stands key path depth
      → is_prefix_of (prefix n) (drop depth key) ≡ true
      → drop (length (prefix n)) (drop depth key) ≡ byte ∷ below
      → ((c : Slot V)
          → find_child byte n ≡ some c
          → Result key ((path ++ prefix n) ++ byte ∷ []) (depth + length (prefix n) + 1) c (next c))
      → Result key path depth (inner n) (remove_at (of_key key) (always key) next byte n o)
  unfolding remove_at
  at-Result next path depth byte n none h w st ip e ih =
      missing-Result path depth byte n none ip e h (λ f d. refl)
  at-Result next path depth byte n (some null) h w st ip e ih =
      missing-Result path depth byte n (some null) ip e h (λ f d. get_slot-null f key d)
  at-Result next path depth byte n (some (leaf l)) h w st ip e ih =
      entry-Result path depth byte l n w st ip e h
  at-Result next path depth byte n (some (inner c)) h w st ip e ih =
      relink_all-Result path depth byte (inner c) n (next (inner c)) w st ip e h (ih (inner c) h)

  through-Result :
      (next : ℕ → Slot V → Option (Removed V)) (path : Key) (depth : ℕ) (n : Node V) (after : Key)
      → drop (length (prefix n)) (drop depth key) ≡ after
      → WfNode path n
      → Stands key path depth
      → is_prefix_of (prefix n) (drop depth key) ≡ true
      → ((byte : ℕ) (below : Key) (c : Slot V)
          → drop (length (prefix n)) (drop depth key) ≡ byte ∷ below
          → find_child byte n ≡ some c
          → Result key
              ((path ++ prefix n) ++ byte ∷ [])
              (depth + length (prefix n) + 1)
              c
              (next (depth + length (prefix n) + 1) c))
      → Result key path depth
          (inner n)
          (remove_below (of_key key) (always key) next (depth + length (prefix n)) n after)
  unfolding remove_below
  through-Result next path depth (node ty p ex cs) [] e w st ip ih =
      exact-Result path depth (node ty p ex cs) ex refl w w.2 st ip e
  through-Result next path depth n (byte ∷ below) e w st ip ih =
      at-Result (next (depth + length (prefix n) + 1)) path depth byte n (find_child byte n) refl w
        st ip e (λ c h. ih byte below c e h)

  -- Every remove below a well-formed slot, with fuel for what is left of the key.
  pub remove_slot-Result :
      (fuel depth : ℕ) (path : Key) (s : Slot V)
      → Wf path s
      → Stands key path depth
      → length (drop depth key) < fuel
      → Result key path depth s (remove_slot fuel key (of_key key) (always key) depth s)
  unfolding remove_slot
  remove_slot-Result zero depth path s w st lt = absurd (omega arith)
  remove_slot-Result (suc fuel) depth path null w st lt = absurd w
  remove_slot-Result (suc fuel) depth path (leaf l) w st lt = root_leaf-Result path depth l
  remove_slot-Result (suc fuel) depth path (inner n) w st lt =
      elim (Bool-cases (is_prefix_of (prefix n) (drop depth key))) [
        | inr out ↦ rw out (λ f lt'. get_slot-out f key depth n out)
        | inl ip ↦ rw ip (
            through-Result (remove_slot fuel key (of_key key) (always key)) path depth n
              (drop (length (prefix n)) (drop depth key)) refl w st ip
              (λ byte below c e h.
                remove_slot-Result fuel (depth + length (prefix n) + 1)
                  ((path ++ prefix n) ++ byte ∷ []) c (WfNode-find path byte c n w h).1
                  (Stands-below key path (prefix n) depth st ip e)
                  (below_lt key depth (length (prefix n)) fuel e lt)))
      ]
