-- ===== src/Cursor/SeekFrames.antt =====
-- The frames that `seek` of src/raw/cursor.rs leaves: what they keep of the leaves of a node.
use artmap.Prelude.{
  ℕ, ◌≡◌, refl, ap, sym, ◌∙◌, Bool, true, false, ◌&&◌, inl, inr, Option, none, some, List, [], ◌∷◌,
  ◌++◌, length, ltb, if◌then◌else◌, Bool-cases, reverse, lt→ltb,
}
use mathlib.Core.Path.{subst}
use mathlib.Core.Bool.{false≢true}
use mathlib.Core.List.{append_assoc, append-nil}
use artmap.Prelude.Bytes.{Key, bytes_eq_refl, common_prefix, is_prefix_of, common_prefix-lt_length}
use artmap.Prelude.Entries.{find}
use artmap.Prelude.Order.{key_lt, key_lt-append, key_lt_irrefl, key_lt-longer}
use artmap.Tree.{Leaf, Node, node, Children, prefix, find_child, to_entries}
use artmap.Tree.Wf.{EndsAt, WfNode}
use artmap.Tree.Leaves.{node_leaves, child_leaves, Every, Every-map}
use artmap.Tree.InOrder.{Longer, child_leaves-Longer}
use artmap.Cursor.{Dir, forward, backward, before, is_forward, past, exact_frame, byte_frame}
use artmap.Cursor.Ahead.{ahead}
use artmap.Cursor.Turns.{runs, exact_list, frame_exact, frame_leaves}
use artmap.Cursor.Work.{runs-children}
use artmap.Cursor.Loop.{Ready}
use artmap.Cursor.Keeps.{kept, kept-after, kept-before, kept-append, AllAfter, AllBefore}
use artmap.Cursor.Parts.{found_leaves, forward_parts, backward_parts}
use artmap.Cursor.Ahead.{from_byte-zero}
use artmap.Cursor.Seeks.{kept-nil}

pub whole-prefix :
    (p rest : Key) → ltb (common_prefix p rest) (length p) ≡ false → is_prefix_of p rest ≡ true
whole-prefix p rest h = elim (Bool-cases (is_prefix_of p rest)) [
  | inl hit ↦ hit
  | inr miss ↦
      let lt = common_prefix-lt_length p rest miss in
      absurd (false≢true (sym h ∙ lt→ltb (common_prefix p rest) (length p) lt))
]

and_true : (b : Bool) → (b && true) ≡ b
and_true true = refl
and_true false = refl

past_self : (d : Dir) (key : Key) (inclusive : Bool) → past d key inclusive key ≡ inclusive
past_self forward key inclusive = rw (key_lt_irrefl key, bytes_eq_refl key) (and_true inclusive)
past_self backward key inclusive = rw (key_lt_irrefl key, bytes_eq_refl key) (and_true inclusive)

module _ {ℓ} {V : Type ℓ} where
  node_leaves-parts :
      (ty : _) (p : Key) (ex : Option (Leaf V)) (cs : Children V)
      → node_leaves (node ty p ex cs) ≡ exact_list ex ++ child_leaves cs
  node_leaves-parts ty p none cs = refl
  node_leaves-parts ty p (some l) cs = refl

  reverse-exact : (ex : Option (Leaf V)) → reverse (exact_list ex) ≡ exact_list ex
  reverse-exact none = refl
  reverse-exact (some l) = refl

  Longer-after : (key : Key) (ls : List (Leaf V)) → Every (Longer key) ls → AllAfter key ls
  Longer-after key ls u =
      Every-map (Longer key) (λ l. key_lt key l.key ≡ true) ls
        (λ l g.
          let (c, r, e) = g in
          ap (key_lt key) e
          ∙ ap (λ k. key_lt k (key ++ c ∷ r)) (sym (append-nil key))
          ∙ key_lt-append key [] (c ∷ r)
          ∙ key_lt-longer c r)
        u

  pub kept-one :
      (d : Dir) (key : Key) (inclusive : Bool) (l : Leaf V)
      → past d key inclusive l.key ≡ true
      → kept d key inclusive (l ∷ []) ≡ l ∷ []
  kept-one forward key inclusive l h = rw h refl
  kept-one backward key inclusive l h = ap (λ t. reverse (if t then l ∷ [] else [])) h

  pub kept-zero :
      (d : Dir) (key : Key) (inclusive : Bool) (l : Leaf V)
      → past d key inclusive l.key ≡ false
      → kept d key inclusive (l ∷ []) ≡ []
  kept-zero forward key inclusive l h = rw h refl
  kept-zero backward key inclusive l h = ap (λ t. reverse (if t then l ∷ [] else [])) h

  exact-kept :
      (d : Dir) (key : Key) (inclusive : Bool) (ex : Option (Leaf V))
      → EndsAt key ex
      → kept d key inclusive (exact_list ex) ≡ (if inclusive then exact_list ex else [])
  exact-kept d key true none w = kept-nil d key true
  exact-kept d key false none w = kept-nil d key false
  exact-kept d key true (some l) w =
      kept-one d key true l (ap (past d key true) w ∙ past_self d key true)
  exact-kept d key false (some l) w =
      kept-zero d key false l (ap (past d key false) w ∙ past_self d key false)

  -- The key ends in the node.
  pub exact-frame :
      (d : Dir) (key path : Key) (inclusive : Bool) (n : Node V)
      → WfNode path n
      → key ≡ path ++ prefix n
      → frame_leaves d (exact_frame d inclusive n) ≡ kept d key inclusive (node_leaves n)
  exact-frame d key path inclusive (node ty p ex cs) w k =
      let longer = Longer-after key (child_leaves cs) (
        subst (λ t. Every (Longer t) (child_leaves cs)) (sym k)
          (child_leaves-Longer (path ++ p) cs w.5)) in
      let e = exact-kept d key inclusive ex (subst (λ t. EndsAt t ex) (sym k) w.2) in
      sym (
        ap (kept d key inclusive) (node_leaves-parts ty p ex cs)
        ∙ kept-append key inclusive d (exact_list ex) (child_leaves cs)
        ∙ parts d e (kept-after key inclusive d (child_leaves cs) longer))
    where
      parts :
          (d : Dir)
          → kept d key inclusive (exact_list ex) ≡ (if inclusive then exact_list ex else [])
          → kept d key inclusive (child_leaves cs) ≡ (if is_forward d then child_leaves cs else [])
          → (if is_forward d
              then kept d key inclusive (exact_list ex) ++ kept d key inclusive (child_leaves cs)
              else kept d key inclusive (child_leaves cs) ++ kept d key inclusive (exact_list ex))
            ≡ frame_leaves d (exact_frame d inclusive (node ty p ex cs))
      parts forward e g =
          ap (λ t. t ++ kept forward key inclusive (child_leaves cs)) e
          ∙ ap (λ t. (if inclusive then exact_list ex else []) ++ t)
              (g
                ∙ sym (runs-children cs)
                ∙ ap (runs forward) (sym (from_byte-zero (to_entries cs))))
      parts backward e g = ap (λ t. t ++ kept backward key inclusive (exact_list ex)) g ∙ e

  exact-before :
      (key path : Key) (byte : ℕ) (below : Key) (ex : Option (Leaf V))
      → EndsAt path ex
      → key ≡ path ++ byte ∷ below
      → AllBefore key (exact_list ex)
  exact-before key path byte below none w k = tt
  exact-before key path byte below (some l) w k = (
    ap (λ t. key_lt t key) w
        ∙ ap (key_lt path) k
        ∙ ap (λ t. key_lt t (path ++ byte ∷ below)) (sym (append-nil path))
        ∙ key_lt-append path [] (byte ∷ below)
        ∙ key_lt-longer byte below,
    tt,
  )

  -- The key goes on at a byte.
  pub byte-kept :
      (d : Dir) (key path : Key) (inclusive : Bool) (n : Node V) (byte : ℕ) (below : Key)
      → WfNode path n
      → key ≡ (path ++ prefix n) ++ byte ∷ below
      → kept d key inclusive (node_leaves n)
        ≡ kept d key inclusive (found_leaves (find_child byte n))
          ++ frame_leaves d (byte_frame d byte n)
  unfolding find_child
  byte-kept forward key path inclusive (node ty p ex cs) byte below w k =
      ap (kept forward key inclusive) (node_leaves-parts ty p ex cs)
      ∙ kept-append key inclusive forward (exact_list ex) (child_leaves cs)
      ∙ ap (λ t. t ++ kept forward key inclusive (child_leaves cs))
          (kept-before key inclusive forward (exact_list ex)
            (exact-before key (path ++ p) byte below ex w.2 k))
      ∙ forward_parts key (path ++ p) byte below k inclusive cs w.5 w.3
  byte-kept backward key path inclusive (node ty p ex cs) byte below w k =
      ap (kept backward key inclusive) (node_leaves-parts ty p ex cs)
      ∙ kept-append key inclusive backward (exact_list ex) (child_leaves cs)
      ∙ ap (λ t. kept backward key inclusive (child_leaves cs) ++ t)
          (kept-before key inclusive backward (exact_list ex)
              (exact-before key (path ++ p) byte below ex w.2 k)
            ∙ reverse-exact ex)
      ∙ ap (λ t. t ++ exact_list ex)
          (backward_parts key (path ++ p) byte below k inclusive cs w.5 w.3)
      ∙ append_assoc (kept backward key inclusive (found_leaves (find byte (to_entries cs))))
          (runs backward (ahead backward (before byte) (to_entries cs))) (exact_list ex)

  pub byte-Ready : (d : Dir) (byte : ℕ) (n : Node V) → Ready d (frame_exact (byte_frame d byte n))
  byte-Ready forward byte n = refl
  byte-Ready backward byte n = refl
