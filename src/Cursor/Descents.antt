-- ===== src/Cursor/Descents.antt =====
-- The descent of `seek` along a key, of src/raw/cursor.rs.
use artmap.Prelude.{
  ℕ, zero, suc, ◌+◌, ◌<◌, ◌≡◌, refl, ap, sym, ◌∙◌, Bool, inl, inr, Option, none, some, List, [],
  ◌∷◌, ◌++◌, length, drop, ltb, Bool-cases, arith, ltb→lt,
}
use mathlib.Core.List.{append_assoc, append-nil}
use artmap.Prelude.Bytes.{Key, common_prefix}
use artmap.Prelude.Ints.{pos}
use artmap.Tree.{Leaf, Slot, null, leaf, inner, Node, prefix, entries, find_child}
use artmap.Tree.Wf.{WfNode, WfNode-find}
use artmap.Tree.Look.{drop_below, length_below}
use artmap.Tree.Stands.{Stands, Stands-below}
use artmap.Tree.Leaves.{node_leaves}
use artmap.Tree.Refines.{key_at}
use artmap.Cursor.{
  Dir, forward, backward, after, Frame, past, byte_frame, seek_child, seek_behind, seek_node,
}
use artmap.Cursor.Ahead.{ahead}
use artmap.Cursor.Turns.{
  directed, runs, frame_exact, frame_leaves, remaining, Sane, AllSane, Sane-parts,
}
use artmap.Cursor.Loop.{ahead_split}
use artmap.Cursor.Keeps.{kept}
use artmap.Cursor.Parts.{found_leaves}
use artmap.Cursor.Ahead.{ahead-at}
use artmap.Cursor.Seeks.{Sought, beside-Sought, kept-nil}
use artmap.Cursor.SeekFrames.{kept-one, kept-zero, exact-frame, byte-kept, byte-Ready, whole-prefix}

module _ {ℓ} {V : Type ℓ} where
  -- The leaf at the byte is taken by a frame that has it before it.
  taken-frame :
      (d : Dir) (n : Node V) (byte : ℕ) (l : Leaf V) (r : List (Leaf V))
      → Sane n
      → find_child byte n ≡ some (leaf l)
      → frame_leaves d (record (byte_frame d byte n) { next = pos byte }) ++ r
        ≡ l ∷ (frame_leaves d (byte_frame d byte n) ++ r)
  unfolding find_child
  taken-frame d n byte l r w h =
      let s = Sane-parts n w in
      ahead_split d (frame_exact (byte_frame d byte n)) (l ∷ [])
        (runs d (ahead d (after d byte) (entries n))) r (byte-Ready d byte n)
        (ap (runs d) (ahead-at d byte (entries n) s.0 s.1 h)
          ∙ ap (λ t. t ++ runs d (ahead d (after d byte) (entries n))) (one d))
    where
      one : (d : Dir) → directed d (l ∷ []) ≡ l ∷ []
      one forward = refl
      one backward = refl

  module _ (d : Dir) (key path : Key) (inclusive : Bool) (depth : ℕ) (n : Node V)
      (st : List (Frame V)) (w : WfNode path n) (a : AllSane st) where
    child-Sought :
        (next : Node V → List (Frame V) → List (Frame V)) (byte : ℕ) (below : Key)
        (o : Option (Slot V))
        → find_child byte n ≡ o
        → key ≡ (path ++ prefix n) ++ byte ∷ below
        → ((c : Node V) (st' : List (Frame V))
            → find_child byte n ≡ some (inner c)
            → AllSane st'
            → Sought d key inclusive c st' (next c st'))
        → Sought d key inclusive n st (seek_child d key inclusive next byte n st o)
    unfolding seek_child
    child-Sought next byte below none h k ih = (
      ((path, w), a),
      ap (λ t. t ++ remaining d st)
          (sym (
            byte-kept d key path inclusive n byte below w k
            ∙ ap
                (λ o. kept d key inclusive (found_leaves o) ++ frame_leaves d (byte_frame d byte n))
                h
            ∙ ap (λ t. t ++ frame_leaves d (byte_frame d byte n)) (kept-nil d key inclusive))),
    )
    child-Sought next byte below (some null) h k ih = absurd (WfNode-find path byte null n w h).1
    child-Sought next byte below (some (inner c)) h k ih =
        let q = ih c (byte_frame d byte n ∷ st) h ((path, w), a) in
        (
          q.0,
          q.1
              ∙ sym (
                  append_assoc (kept d key inclusive (node_leaves c))
                    (frame_leaves d (byte_frame d byte n)) (remaining d st))
              ∙ ap (λ t. t ++ remaining d st)
                  (sym (
                    byte-kept d key path inclusive n byte below w k
                    ∙ ap
                        (λ o.
                          kept d key inclusive (found_leaves o)
                          ++ frame_leaves d (byte_frame d byte n))
                        h)),
        )
    child-Sought next byte below (some (leaf l)) h k ih =
        let whole =
          byte-kept d key path inclusive n byte below w k
          ∙ ap (λ o. kept d key inclusive (found_leaves o) ++ frame_leaves d (byte_frame d byte n))
              h in
        elim (Bool-cases (past d key inclusive l.key)) [
          | inl take ↦ rw take (
            ((path, w), a),
            taken-frame d n byte l (remaining d st) (path, w) h
                ∙ ap (λ t. t ++ remaining d st)
                    (sym (
                      whole
                      ∙ ap (λ t. t ++ frame_leaves d (byte_frame d byte n))
                          (kept-one d key inclusive l take))),
          )
          | inr skip ↦ rw skip (
            ((path, w), a),
            ap (λ t. t ++ remaining d st)
                (sym (
                  whole
                  ∙ ap (λ t. t ++ frame_leaves d (byte_frame d byte n))
                      (kept-zero d key inclusive l skip))),
          )
        ]

  behind-Sought :
      (next : Node V → List (Frame V) → List (Frame V)) (d : Dir) (key path : Key)
      (inclusive : Bool) (depth : ℕ) (n : Node V) (st : List (Frame V)) (rest : Key)
      → WfNode path n
      → AllSane st
      → key ≡ (path ++ prefix n) ++ rest
      → ((byte : ℕ) (below : Key) (c : Node V) (st' : List (Frame V))
          → rest ≡ byte ∷ below
          → find_child byte n ≡ some (inner c)
          → AllSane st'
          → Sought d key inclusive c st' (next c st'))
      → Sought d key inclusive n st (seek_behind d key inclusive next n st rest)
  unfolding seek_behind
  behind-Sought next d key path inclusive depth n st [] w a k ih = (
    (((path, w), a)),
    ap (λ t. t ++ remaining d st)
        (exact-frame d key path inclusive n w (k ∙ append-nil (path ++ prefix n))),
  )
  behind-Sought next d key path inclusive depth n st (byte ∷ below) w a k ih =
      child-Sought d key path inclusive depth n st w a next byte below (find_child byte n) refl k
        (λ c st' h a'. ih byte below c st' refl h a')

  -- A seek below a node stacks the leaves of the node that lie past the key, with enough fuel.
  pub seek_node-Sought :
      (fuel : ℕ) (d : Dir) (key path : Key) (inclusive : Bool) (depth : ℕ) (n : Node V)
      (st : List (Frame V))
      → WfNode path n
      → Stands key path depth
      → length (drop depth key) < fuel
      → AllSane st
      → Sought d key inclusive n st (seek_node fuel d key inclusive depth n st)
  unfolding seek_node
  seek_node-Sought zero d key path inclusive depth n st w s lt a = absurd (omega arith)
  seek_node-Sought (suc fuel) d key path inclusive depth n st w s lt a =
      elim (Bool-cases (ltb (common_prefix (prefix n) (drop depth key)) (length (prefix n)))) [
        | inl parts ↦ rw parts (
            beside-Sought key path depth n w st a s
              (ltb→lt (common_prefix (prefix n) (drop depth key)) (length (prefix n)) parts) d
              inclusive)
        | inr whole ↦
            let ip = whole-prefix (prefix n) (drop depth key) whole in
            rw whole (
              behind-Sought
                (λ c st'. seek_node fuel d key inclusive (depth + length (prefix n) + 1) c st') d
                key path inclusive depth n st (drop (length (prefix n)) (drop depth key)) w a
                (key_at key path (prefix n) depth s ip refl)
                (λ byte below c st' e h a'.
                  seek_node-Sought fuel d key ((path ++ prefix n) ++ byte ∷ []) inclusive
                    (depth + length (prefix n) + 1) c st' (WfNode-find path byte (inner c) n w h).1
                    (Stands-below key path (prefix n) depth s ip e)
                    (let q = length_below (drop depth key) (length (prefix n)) e in
                      let r = ap length (drop_below key depth (length (prefix n)) e) in omega arith)
                    a'))
      ]
