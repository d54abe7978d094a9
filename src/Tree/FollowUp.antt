-- ===== src/Tree/FollowUp.antt =====
-- The follow-up of a remove: lookups while empty nodes are unlinked.
use artmap.Prelude.{
  ℕ, zero, suc, ◌+◌, ◌≡◌, refl, sym, ap, ◌∙◌, inl, inr, Option, none, some, [], ◌∷◌, ◌++◌, length,
  drop, Bool-cases,
}
use artmap.Prelude.Bytes.{Key, is_prefix_of}
use artmap.Tree.{
  Slot, null, leaf, inner, Node, node, prefix, find_child, remove_child, replace_child,
}
use artmap.Tree.Read.{get_slot}
use artmap.Tree.Remove.{
  nothing, emptied_by, unlink_if_empty, unlink_child, unlink_at, unlink_below, unlink_emptied,
}
use artmap.Tree.Wf.{Wf, WfNode, WfNode-find}
use artmap.Tree.NodeReads.{step}
use artmap.Tree.NodeWf.{replace_child-Wf}
use artmap.Tree.Rerouted.{
  Rerouted, remove_child-Rerouted, replace_child-Rerouted, Rerouted-kept, get_slot-null,
  get_slot-unlinked, emptied_by-nothing,
}
use artmap.Tree.RemoveStep.{NullOrWf, remove_child-Wf, unlinked-Wf}

module _ {ℓ} {V : Type ℓ} where
  -- Another slot for the same lookups.
  pub record Same (path : Key) (depth : ℕ) (s s' : Slot V) : Type ℓ where
    pub keeps : NullOrWf path s'
    pub reads : (f : ℕ) (k : Key) → get_slot f k depth s' ≡ get_slot f k depth s

  pub Wf-NullOrWf : (path : Key) (s : Slot V) → Wf path s → NullOrWf path s
  Wf-NullOrWf path null w = tt
  Wf-NullOrWf path (leaf l) w = w
  Wf-NullOrWf path (inner n) w = w

  get_slot-zero : (k : Key) (depth : ℕ) (s : Slot V) → get_slot 0 k depth s ≡ none
  unfolding get_slot
  get_slot-zero k depth s = refl

  unlink_if_empty-Same :
      (path : Key) (depth : ℕ) (n : Node V)
      → WfNode path n
      → Same path depth (inner n) (unlink_if_empty n)
  unfolding unlink_if_empty
  unlink_if_empty-Same path depth n w = record {
    keeps = unlinked-Wf path (emptied_by nothing n) n w;
    reads = λ f k. get_slot-unlinked f k depth (emptied_by nothing n) n (emptied_by-nothing n);
  }

  module _ (path : Key) (depth byte : ℕ) (c : Slot V) (n : Node V)
      (h : find_child byte n ≡ some c) where
    -- A child may be exchanged for a slot with the same lookups, or for none.
    Rerouted-reads :
        (o : Option (Slot V)) (n' : Node V)
        → Rerouted byte o n n'
        → ((f : ℕ) (k : Key)
            → step (get_slot f k) (depth + length (prefix n) + 1) o
              ≡ get_slot f k (depth + length (prefix n) + 1) c)
        → (f : ℕ) (k : Key) → get_slot f k depth (inner n') ≡ get_slot f k depth (inner n)
    Rerouted-reads o n' w same zero k =
        get_slot-zero k depth (inner n') ∙ sym (get_slot-zero k depth (inner n))
    Rerouted-reads o n' w same (suc f) k =
        Rerouted-kept f k depth byte o n n' w (λ below ip e.
          same f k ∙ sym (ap (step (get_slot f k) (depth + length (prefix n) + 1)) h))

    replaced-Same :
        (s : Slot V)
        → WfNode path n
        → Wf ((path ++ prefix n) ++ byte ∷ []) s
        → Same ((path ++ prefix n) ++ byte ∷ []) (depth + length (prefix n) + 1) c s
        → Same path depth (inner n) (inner (replace_child byte s n))
    replaced-Same s w ws g = record {
      keeps = replace_child-Wf path byte s n w ws;
      reads =
          Rerouted-reads (some s) (replace_child byte s n) (replace_child-Rerouted byte s n h)
            g.reads;
    }

    removed-Same :
        WfNode path n
        → Rerouted byte none n (remove_child byte n)
        → Same ((path ++ prefix n) ++ byte ∷ []) (depth + length (prefix n) + 1) c null
        → Same path depth (inner n) (unlink_if_empty (remove_child byte n))
    removed-Same w r g =
        let u =
          unlink_if_empty-Same path depth (remove_child byte n) (remove_child-Wf path byte n w h) in
        record {
          keeps = u.keeps;
          reads = λ f k.
              u.reads f k
              ∙ Rerouted-reads none (remove_child byte n) r
                  (λ f k. sym (get_slot-null f k (depth + length (prefix n) + 1)) ∙ g.reads f k) f
                  k;
        }

  removed_at :
      (path : Key) (byte : ℕ) (n : Node V)
      → WfNode path n
      → Rerouted byte none n (remove_child byte n)
  removed_at path byte (node ty p ex cs) w = remove_child-Rerouted byte (node ty p ex cs) w.3

  unlink_child-Same :
      (path : Key) (depth byte : ℕ) (c s : Slot V) (n : Node V)
      → find_child byte n ≡ some c
      → WfNode path n
      → Same ((path ++ prefix n) ++ byte ∷ []) (depth + length (prefix n) + 1) c s
      → Same path depth (inner n) (unlink_child byte n s)
  unfolding unlink_child
  unlink_child-Same path depth byte c null n h w g =
      removed-Same path depth byte c n h w (removed_at path byte n w) g
  unlink_child-Same path depth byte c (leaf l) n h w g =
      replaced-Same path depth byte c n h (leaf l) w g.keeps g
  unlink_child-Same path depth byte c (inner m) n h w g =
      replaced-Same path depth byte c n h (inner m) w g.keeps g

  unlink_at-Same :
      (next : Slot V → Slot V) (path : Key) (depth byte : ℕ) (n : Node V) (o : Option (Slot V))
      → find_child byte n ≡ o
      → WfNode path n
      → ((c : Slot V)
          → find_child byte n ≡ some c
          → Same ((path ++ prefix n) ++ byte ∷ []) (depth + length (prefix n) + 1) c (next c))
      → Same path depth (inner n) (unlink_at next byte n o)
  unfolding unlink_at
  unlink_at-Same next path depth byte n none h w ih = unlink_if_empty-Same path depth n w
  unlink_at-Same next path depth byte n (some null) h w ih = unlink_if_empty-Same path depth n w
  unlink_at-Same next path depth byte n (some (leaf l)) h w ih = unlink_if_empty-Same path depth n w
  unlink_at-Same next path depth byte n (some (inner c)) h w ih =
      unlink_child-Same path depth byte (inner c) (next (inner c)) n h w (ih (inner c) h)

  unlink_below-Same :
      (next : ℕ → Slot V → Slot V) (path : Key) (depth : ℕ) (n : Node V) (after : Key)
      → WfNode path n
      → ((byte : ℕ) (c : Slot V)
          → find_child byte n ≡ some c
          → Same
              ((path ++ prefix n) ++ byte ∷ [])
              (depth + length (prefix n) + 1)
              c
              (next (depth + length (prefix n) + 1) c))
      → Same path depth (inner n) (unlink_below next (depth + length (prefix n)) n after)
  unfolding unlink_below
  unlink_below-Same next path depth n [] w ih = unlink_if_empty-Same path depth n w
  unlink_below-Same next path depth n (byte ∷ below) w ih =
      unlink_at-Same (next (depth + length (prefix n) + 1)) path depth byte n (find_child byte n)
        refl w (λ c h. ih byte c h)

  pub unlink_emptied-Same :
      (fuel : ℕ) (key : Key) (depth : ℕ) (path : Key) (s : Slot V)
      → NullOrWf path s
      → Same path depth s (unlink_emptied fuel key depth s)
  unfolding unlink_emptied
  unlink_emptied-Same zero key depth path s w = record { keeps = w; reads = λ f k. refl }
  unlink_emptied-Same (suc fuel) key depth path null w = record { keeps = tt; reads = λ f k. refl }
  unlink_emptied-Same (suc fuel) key depth path (leaf l) w = record {
    keeps = w;
    reads = λ f k. refl;
  }
  unlink_emptied-Same (suc fuel) key depth path (inner n) w =
      elim (Bool-cases (is_prefix_of (prefix n) (drop depth key))) [
        | inr out ↦ rw out (unlink_if_empty-Same path depth n w)
        | inl ip ↦ rw ip (
            unlink_below-Same (unlink_emptied fuel key) path depth n
              (drop (length (prefix n)) (drop depth key)) w
              (λ byte c h.
                unlink_emptied-Same fuel key (depth + length (prefix n) + 1)
                  ((path ++ prefix n) ++ byte ∷ []) c
                  (Wf-NullOrWf ((path ++ prefix n) ++ byte ∷ []) c
                    (WfNode-find path byte c n w h).1)))
      ]
