-- ===== src/Cursor/Positions.antt =====
-- What the seek of the first step finds, and the scan from there on.
use artmap.Prelude.{
  ℕ, suc, ◌<◌, ◌≡◌, refl, ap, sym, ◌∙◌, Bool, true, false, ◌&&◌, Option, none, some, List, [], ◌∷◌,
  length, reverse, if◌then◌else◌, arith,
}
use mathlib.Core.Path.{subst}
use mathlib.Core.Bool.{false≢true}
use mathlib.Core.List.{append-nil}
use artmap.Prelude.Bytes.{Key}
use artmap.Tree.{Leaf, Slot, null, leaf, inner, Node}
use artmap.Tree.Wf.{IsBytes, WfNode, IsTree}
use artmap.Tree.Stands.{Stands-root}
use artmap.Tree.Leaves.{leaves, node_leaves, Every-map, Every-all}
use artmap.Tree.Contents.{tree-Ascending}
use artmap.Cursor.{
  Bound, included, excluded, unbounded, Dir, forward, backward, past, edge_frame, seek_node,
}
use artmap.Cursor.Sides.{
  Side, Cursor, above_start, below_end, seek, reset, other_of, inside, takes_root, take_pending,
  advance,
}
use artmap.Cursor.Turns.{directed, remaining, AllSane, frame_leaves}
use artmap.Cursor.Work.{edge-leaves}
use artmap.Cursor.Keeps.{keep, kept, keep-all}
use artmap.Cursor.Accepts.{Closed, available}
use artmap.Cursor.Scans.{up_to, drain, drain-take_pending}
use artmap.Cursor.Descents.{seek_node-Sought}
use artmap.Cursor.Bounds.{BoundBytes, near_test, far_test, past-included, past-excluded}
use artmap.Cursor.InDirection.{
  tree-IsBytes, keep_cong, Every-keep, keep-Ascending, keep-keep, keep-reverse, length-keep,
  length-directed, up_to-keep, directed-Closed,
}

abbrev pub far_bound : Dir → Bound → Bound → Bound
far_bound forward start finish = finish
far_bound backward start finish = start

abbrev pub near_bound : Dir → Bound → Bound → Bound
near_bound d start finish = far_bound d finish start

bounds :
    (d : Dir) (start finish : Bound)
    → BoundBytes start
    → BoundBytes finish
    → BoundBytes (far_bound d start finish)
bounds forward start finish u v = v
bounds backward start finish u v = u

open_test : (d : Dir) (k : Key) → near_test d unbounded k ≡ true
unfolding above_start below_end
open_test forward k = refl
open_test backward k = refl

takes_root-near : (d : Dir) (bound : Bound) (k : Key) → takes_root d bound k ≡ near_test d bound k
unfolding takes_root above_start below_end
takes_root-near forward unbounded k = refl
takes_root-near forward (included b) k = refl
takes_root-near forward (excluded b) k = refl
takes_root-near backward unbounded k = refl
takes_root-near backward (included b) k = refl
takes_root-near backward (excluded b) k = refl

and_comm : (a b : Bool) → (a && b) ≡ (b && a)
and_comm true true = refl
and_comm true false = refl
and_comm false true = refl
and_comm false false = refl

-- A key in the range.
unfoldable pub in_range : Bound → Bound → Key → Bool
unfolding above_start below_end
in_range start finish k = above_start k start && below_end k finish

module _ {ℓ} {V : Type ℓ} where
  -- What a seek from a new side has before it.
  record Found (d : Dir) (bound : Bound) (root : Slot V) (side : Side V) : Type ℓ where
    pub sane : AllSane side.stack
    pub avail : available d side ≡ directed d (keep (near_test d bound) (leaves root))
    pub range : side.batch_in_range ≡ false

  root-Found :
      (d : Dir) (bound : Bound) (side : Side V) (l : Leaf V) (b : Bool)
      → near_test d bound l.key ≡ b
      → Found d bound (leaf l) (if b then record (reset side) { pending = some l } else reset side)
  unfolding reset
  root-Found forward bound side l true h = record { sane = tt; avail = rw h refl; range = refl }
  root-Found forward bound side l false h = record { sane = tt; avail = rw h refl; range = refl }
  root-Found backward bound side l true h = record {
    sane = tt;
    avail = ap (λ t. reverse (if t then l ∷ [] else [])) (sym h);
    range = refl;
  }
  root-Found backward bound side l false h = record {
    sane = tt;
    avail = ap (λ t. reverse (if t then l ∷ [] else [])) (sym h);
    range = refl;
  }

  node-found :
      (d : Dir) (key : Key) (inclusive : Bool) (bound : Bound) (n : Node V)
      → WfNode [] n
      → IsBytes key
      → ((k : Key) → IsBytes k → past d key inclusive k ≡ near_test d bound k)
      → AllSane (seek_node (suc (length key)) d key inclusive 0 n [])
        × (remaining d (seek_node (suc (length key)) d key inclusive 0 n [])
            ≡ directed d (keep (near_test d bound) (node_leaves n)))
  node-found d key inclusive bound n w b h =
      let q =
        seek_node-Sought (suc (length key)) d key [] inclusive 0 n [] w (Stands-root key)
          (omega arith) tt in
      (
        q.0,
        q.1
            ∙ append-nil (kept d key inclusive (node_leaves n))
            ∙ ap (directed d) (
                keep_cong (past d key inclusive) (near_test d bound) (node_leaves n) (
                  Every-map (λ l. IsBytes l.key)
                    (λ l. past d key inclusive l.key ≡ near_test d bound l.key) (node_leaves n)
                    (λ l g. h l.key g) (tree-IsBytes (inner n) w))),
      )

  seek-Found :
      (d : Dir) (bound : Bound) (root : Slot V) (side : Side V)
      → IsTree root
      → BoundBytes bound
      → Found d bound root (seek root side bound d)
  unfolding seek reset
  seek-Found d bound null side w b = record { sane = tt; avail = nothing d; range = refl }
    where
      nothing : (d : Dir) → [] ≡ directed {V = V} d []
      nothing forward = refl
      nothing backward = refl
  seek-Found d bound (leaf l) side w b =
      subst
        (λ t.
          Found d bound (leaf l)
            (if t then record (reset side) { pending = some l } else reset side))
        (sym (takes_root-near d bound l.key))
        (root-Found d bound side l (near_test d bound l.key) refl)
  seek-Found d unbounded (inner n) side w b = record {
    sane = (([], w), tt);
    avail =
        append-nil (frame_leaves d (edge_frame d n))
        ∙ edge-leaves d n ([], w)
        ∙ ap (directed d) (
            sym (
              keep-all (near_test d unbounded) (node_leaves n) (
                Every-all (λ l. near_test d unbounded l.key ≡ true) (node_leaves n)
                  (λ l. open_test d l.key))));
    range = refl;
  }
  seek-Found d (included key) (inner n) side w b =
      let q = node-found d key true (included key) n w b (λ k v. past-included d k key v b) in
      record { sane = q.0; avail = q.1; range = refl }
  seek-Found d (excluded key) (inner n) side w b =
      let q = node-found d key false (excluded key) n w b (λ k v. past-excluded d k key v b) in
      record { sane = q.0; avail = q.1; range = refl }

  -- The first step, by what the seek left.
  abbrev pub take_sought : Dir → Cursor V → Side V → Option (Leaf V) × Cursor V
  take_sought d c s =
      take_pending d (record s { positioned = true }) c (record s { positioned = true }).pending

  -- The near and the far bound of a direction are the two bounds of the range.
  both-bounds :
      (d : Dir) (start finish : Bound) (ls : List (Leaf V))
      → keep
          (far_test d (far_bound d start finish))
          (directed d (keep (near_test d (near_bound d start finish)) ls))
        ≡ directed d (keep (in_range start finish) ls)
  unfolding in_range
  both-bounds forward start finish ls =
      keep-keep (near_test forward start) (far_test forward finish) ls
  both-bounds backward start finish ls =
      keep-reverse (far_test backward start) (keep (near_test backward finish) ls)
      ∙ ap reverse (
          keep-keep (near_test backward finish) (far_test backward start) ls
          ∙ keep_cong (λ k. near_test backward finish k && far_test backward start k)
              (λ k. above_start k start && below_end k finish) ls
              (Every-all _ ls (λ l. and_comm (below_end l.key finish) (above_start l.key start))))

  -- The scan of a cursor whose first step seeks the near bound of a range, and whose far bound is
  -- the other one: the leaves of the range.
  pub drain-seek :
      (fuel : ℕ) (root : Slot V) (d : Dir) (start finish : Bound) (c : Cursor V) (side : Side V)
      → IsTree root
      → BoundBytes start
      → BoundBytes finish
      → length (leaves root) < fuel
      → c.done ≡ false
      → (other_of d c).last ≡ none
      → inside d c ≡ far_test d (far_bound d start finish)
      → advance root d c ≡ take_sought d c (seek root side (near_bound d start finish) d)
      → drain fuel root d c ≡ directed d (keep (in_range start finish) (leaves root))
  drain-seek fuel root d start finish c side w bs bf lt o n far_is first =
      let far = far_test d (far_bound d start finish) in
      let near_by = near_test d (near_bound d start finish) in
      let ls = directed d (keep near_by (leaves root)) in
      let far_bytes : BoundBytes (far_bound d start finish) = bounds d start finish bs bf in
      let near_bytes : BoundBytes (near_bound d start finish) = bounds d finish start bf bs in
      let f = seek-Found d (near_bound d start finish) root side w near_bytes in
      let closed =
        directed-Closed d (far_bound d start finish) (keep near_by (leaves root)) far_bytes
          (Every-keep (λ l. IsBytes l.key) near_by (leaves root) (tree-IsBytes root w))
          (keep-Ascending near_by (leaves root) (tree-Ascending root w)) in
      drain-take_pending fuel root d c
        (record (seek root side (near_bound d start finish) d) { positioned = true }) ls o n first
        (record {
          placed = refl;
          sane = f.sane;
          avail = f.avail;
          range = λ t. absurd (false≢true (sym f.range ∙ t));
          closed = subst (λ g. Closed g ls) (sym far_is) closed;
        })
        (omega (
          arith,
          length-directed d (keep near_by (leaves root)),
          length-keep near_by (leaves root),
        ))
      ∙ ap (λ g. up_to g ls) far_is
      ∙ up_to-keep far ls closed
      ∙ both-bounds d start finish (leaves root)
