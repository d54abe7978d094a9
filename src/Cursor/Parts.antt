-- ===== src/Cursor/Parts.antt =====
-- The children of a node before, at and past a byte, as a seek parts them.
use artmap.Prelude.{
  ℕ, zero, suc, ◌≤◌, ◌<◌, ◌≡◌, ◌⊎◌, refl, ap, sym, ◌∙◌, Bool, true, false, inl, inr, Option, none,
  some, List, [], ◌∷◌, ◌++◌, reverse, leb, ◌==◌, if◌then◌else◌, arith,
}
use mathlib.Core.List.{append_assoc, append-nil}
use artmap.Prelude.Bytes.{Key}
use artmap.Prelude.Entries.{Entries, Above, IsSorted, find, find-Above}
use artmap.Prelude.Order.{key_lt, key_lt-append, key_lt-bytes}
use artmap.Tree.{Leaf, Slot, Children, nil, cons, to_entries}
use artmap.Tree.Wf.{WfAll}
use artmap.Tree.Leaves.{leaves, child_leaves, Every, Every-map}
use artmap.Tree.InOrder.{Under, Under-at, Beyond, leaves-Under, child_leaves-Beyond}
use artmap.Cursor.{forward, backward, before}
use artmap.Cursor.Ahead.{ahead, from_byte, from_byte-all, down_from, down_from-none}
use artmap.Cursor.Turns.{runs, runs-append}
use artmap.Cursor.Work.{runs-children}
use artmap.Cursor.Keeps.{kept, kept-after, kept-before, kept-append, AllAfter, AllBefore}

trichotomy : (i j : ℕ) → (i ≡ j) ⊎ (i < j) ⊎ (j < i)
trichotomy i j = ground arith

module _ {ℓ} {V : Type ℓ} where
  abbrev pub found_leaves : Option (Slot V) → List (Leaf V)
  found_leaves none = []
  found_leaves (some s) = leaves s

  module _ (key path : Key) (byte : ℕ) (below : Key) (k : key ≡ path ++ byte ∷ below) where
    all_before :
        (b : ℕ) (ls : List (Leaf V))
        → b < byte
        → Every (Under (path ++ b ∷ [])) ls
        → AllBefore key ls
    all_before b ls lt u =
        Every-map (Under (path ++ b ∷ [])) (λ l. key_lt l.key key ≡ true) ls
          (λ l g.
            let (r, e) = Under-at path b l g in
            ap (λ t. key_lt t key) e
            ∙ ap (key_lt (path ++ b ∷ r)) k
            ∙ key_lt-append path (b ∷ r) (byte ∷ below)
            ∙ key_lt-bytes b byte r below lt)
          u

    all_after :
        (b : ℕ) (ls : List (Leaf V))
        → byte < b
        → Every (Under (path ++ b ∷ [])) ls
        → AllAfter key ls
    all_after b ls lt u =
        Every-map (Under (path ++ b ∷ [])) (λ l. key_lt key l.key ≡ true) ls
          (λ l g.
            let (r, e) = Under-at path b l g in
            ap (λ t. key_lt t l.key) k
            ∙ ap (key_lt (path ++ byte ∷ below)) e
            ∙ key_lt-append path (byte ∷ below) (b ∷ r)
            ∙ key_lt-bytes byte b below r lt)
          u

    all-Beyond :
        (b : ℕ) (ls : List (Leaf V)) → byte ≤ b → Every (Beyond path b) ls → AllAfter key ls
    all-Beyond b ls le u =
        Every-map (Beyond path b) (λ l. key_lt key l.key ≡ true) ls
          (λ l g.
            let (c, r, e, lt) = g in
            ap (λ t. key_lt t l.key) k
            ∙ ap (key_lt (path ++ byte ∷ below)) e
            ∙ key_lt-append path (byte ∷ below) (c ∷ r)
            ∙ key_lt-bytes byte c below r (omega (arith, lt)))
          u

    module _ (inclusive : Bool) where
      pub forward_parts :
          (cs : Children V)
          → WfAll path cs
          → IsSorted (to_entries cs)
          → kept forward key inclusive (child_leaves cs)
            ≡ kept forward key inclusive (found_leaves (find byte (to_entries cs)))
              ++ runs forward (from_byte (suc byte) (to_entries cs))
      unfolding find
      forward_parts nil w s = refl
      forward_parts (cons b c cs) w s = elim (trichotomy b byte) [
        | inl e ↦
            let hit : (b == byte) ≡ true = ground arith in
            let skip : leb (suc byte) b ≡ false = ground arith in
            rw (hit, skip)
              (kept-append key inclusive forward (leaves c) (child_leaves cs)
                ∙ ap (λ t. kept forward key inclusive (leaves c) ++ t)
                    (kept-after key inclusive forward (child_leaves cs) (
                        all-Beyond b (child_leaves cs) (omega (arith, e))
                          (child_leaves-Beyond path b cs w.2 s.0))
                      ∙ sym (runs-children cs)
                      ∙ ap (runs forward) (
                          sym (from_byte-all (suc byte) b (to_entries cs) s.0 (omega (arith, e))))))
        | inr (inl lt) ↦
            let miss : (b == byte) ≡ false = ground arith in
            let skip : leb (suc byte) b ≡ false = ground arith in
            rw (miss, skip)
              (kept-append key inclusive forward (leaves c) (child_leaves cs)
                ∙ ap (λ t. t ++ kept forward key inclusive (child_leaves cs))
                    (kept-before key inclusive forward (leaves c)
                      (all_before b (leaves c) lt (leaves-Under (path ++ b ∷ []) c w.1)))
                ∙ forward_parts cs w.2 s.1)
        | inr (inr gt) ↦
            let miss : (b == byte) ≡ false = ground arith in
            let take : leb (suc byte) b ≡ true = ground arith in
            rw (miss, take)
              (kept-append key inclusive forward (leaves c) (child_leaves cs)
                ∙ ap (λ t. t ++ kept forward key inclusive (child_leaves cs))
                    (kept-after key inclusive forward (leaves c)
                      (all_after b (leaves c) gt (leaves-Under (path ++ b ∷ []) c w.1)))
                ∙ ap (λ t. leaves c ++ t)
                    (kept-after key inclusive forward (child_leaves cs) (
                        all-Beyond b (child_leaves cs) (omega (arith, gt))
                          (child_leaves-Beyond path b cs w.2 s.0))
                      ∙ sym (runs-children cs)
                      ∙ ap (runs forward) (
                          sym (from_byte-all (suc byte) b (to_entries cs) s.0 (omega (arith, gt)))))
                ∙ ap
                    (λ o.
                      kept forward key inclusive (found_leaves o)
                      ++ (leaves c ++ runs forward (from_byte (suc byte) (to_entries cs))))
                    (sym (find-Above b byte (to_entries cs) s.0 (omega (arith, gt)))))
      ]

      -- No entry ahead going down from below a byte.
      before-none :
          (b : ℕ) (c : Slot V) (es : Entries (Slot V))
          → byte ≤ b
          → Above b es
          → ahead backward (before byte) ((b, c) ∷ es) ≡ []
      before-none b c es le a = nothing byte le
        where
          nothing : (m : ℕ) → m ≤ b → ahead backward (before m) ((b, c) ∷ es) ≡ []
          nothing zero h = refl
          nothing (suc m) h =
              let skip : leb b m ≡ false = ground arith in
              rw (skip, down_from-none m b es a (omega (arith, h))) refl

      before-more :
          (b : ℕ) (c : Slot V) (es : Entries (Slot V))
          → b < byte
          → runs backward (ahead backward (before byte) ((b, c) ∷ es))
            ≡ runs backward (ahead backward (before byte) es) ++ reverse (leaves c)
      before-more b c es lt = more byte lt
        where
          more :
              (m : ℕ)
              → b < m
              → runs backward (ahead backward (before m) ((b, c) ∷ es))
                ≡ runs backward (ahead backward (before m) es) ++ reverse (leaves c)
          more zero h = absurd (omega (arith, h))
          more (suc m) h =
              let take : leb b m ≡ true = ground arith in
              rw take (
                runs-append backward (down_from m es) ((b, c) ∷ [])
                ∙ ap (λ t. runs backward (down_from m es) ++ t) (append-nil (reverse (leaves c))))

      pub backward_parts :
          (cs : Children V)
          → WfAll path cs
          → IsSorted (to_entries cs)
          → kept backward key inclusive (child_leaves cs)
            ≡ kept backward key inclusive (found_leaves (find byte (to_entries cs)))
              ++ runs backward (ahead backward (before byte) (to_entries cs))
      unfolding find
      backward_parts nil w s = sym (nothing byte)
        where
          nothing : (m : ℕ) → runs {V = V} backward (ahead backward (before m) []) ≡ []
          nothing zero = refl
          nothing (suc m) = refl
      backward_parts (cons b c cs) w s = elim (trichotomy b byte) [
        | inl e ↦
            let hit : (b == byte) ≡ true = ground arith in
            kept-append key inclusive backward (leaves c) (child_leaves cs)
            ∙ ap (λ t. t ++ kept backward key inclusive (leaves c))
                (kept-after key inclusive backward (child_leaves cs) (
                  all-Beyond b (child_leaves cs) (omega (arith, e))
                    (child_leaves-Beyond path b cs w.2 s.0)))
            ∙ sym (append-nil (kept backward key inclusive (leaves c)))
            ∙ ap (λ t. kept backward key inclusive (leaves c) ++ runs backward t)
                (sym (before-none b c (to_entries cs) (omega (arith, e)) s.0))
            ∙ ap
                (λ t.
                  kept backward key inclusive
                    (found_leaves (if t then some c else find byte (to_entries cs)))
                  ++ runs backward (ahead backward (before byte) ((b, c) ∷ to_entries cs)))
                (sym hit)
        | inr (inl lt) ↦
            let miss : (b == byte) ≡ false = ground arith in
            let at = kept backward key inclusive (found_leaves (find byte (to_entries cs))) in
            kept-append key inclusive backward (leaves c) (child_leaves cs)
            ∙ ap (λ t. kept backward key inclusive (child_leaves cs) ++ t)
                (kept-before key inclusive backward (leaves c)
                  (all_before b (leaves c) lt (leaves-Under (path ++ b ∷ []) c w.1)))
            ∙ ap (λ t. t ++ reverse (leaves c)) (backward_parts cs w.2 s.1)
            ∙ append_assoc at (runs backward (ahead backward (before byte) (to_entries cs)))
                (reverse (leaves c))
            ∙ ap (λ t. at ++ t) (sym (before-more b c (to_entries cs) lt))
            ∙ ap
                (λ t.
                  kept backward key inclusive
                    (found_leaves (if t then some c else find byte (to_entries cs)))
                  ++ runs backward (ahead backward (before byte) ((b, c) ∷ to_entries cs)))
                (sym miss)
        | inr (inr gt) ↦
            let miss : (b == byte) ≡ false = ground arith in
            kept-append key inclusive backward (leaves c) (child_leaves cs)
            ∙ ap (λ t. kept backward key inclusive (child_leaves cs) ++ t)
                (kept-after key inclusive backward (leaves c)
                  (all_after b (leaves c) gt (leaves-Under (path ++ b ∷ []) c w.1)))
            ∙ append-nil (kept backward key inclusive (child_leaves cs))
            ∙ kept-after key inclusive backward (child_leaves cs) (
                all-Beyond b (child_leaves cs) (omega (arith, gt))
                  (child_leaves-Beyond path b cs w.2 s.0))
            ∙ ap (λ t. runs backward t)
                (sym (before-none b c (to_entries cs) (omega (arith, gt)) s.0))
            ∙ ap
                (λ o.
                  kept backward key inclusive (found_leaves o)
                  ++ runs backward (ahead backward (before byte) ((b, c) ∷ to_entries cs)))
                (sym (find-Above b byte (to_entries cs) s.0 (omega (arith, gt))))
            ∙ ap
                (λ t.
                  kept backward key inclusive
                    (found_leaves (if t then some c else find byte (to_entries cs)))
                  ++ runs backward (ahead backward (before byte) ((b, c) ∷ to_entries cs)))
                (sym miss)
      ]
