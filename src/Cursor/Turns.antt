-- ===== src/Cursor/Turns.antt =====
-- The leaves that a stack of frames has before it, and what a turn of `step` does with them.
use artmap.Prelude.{
  ℕ, zero, suc, ◌≡◌, refl, ap, sym, ◌∙◌, inl, inr, Option, none, some, List, [], ◌∷◌, ◌++◌, reverse,
  leb, if◌then◌else◌, Bool-cases,
}
use mathlib.Core.Path.{subst}
use mathlib.Core.List.{append_assoc}
use artmap.Prelude.Bytes.{Key}
use artmap.Prelude.Entries.{Entries, IsSorted}
use artmap.Prelude.Ints.{ℤ, pos, negsuc}
use artmap.Tree.{Leaf, Slot, null, leaf, inner, Node, node, exact_leaf, entries, to_entries}
use artmap.Tree.Wf.{Wf, WfNode, WfEntries, WfAll-entries}
use artmap.Tree.Leaves.{leaves}
use artmap.Cursor.{
  Dir, forward, backward, Frame, after, found, Gathered, exhausted, descend, batch_of, more_found,
  gather_more, gather_first, gather,
}
use artmap.Cursor.Ahead.{ByteEntries, ahead, from_byte, down_from, Splits, found-Splits}

module _ {ℓ} {V : Type ℓ} where
  -- in the order of a direction
  abbrev pub directed : Dir → List (Leaf V) → List (Leaf V)
  directed forward ls = ls
  directed backward ls = reverse ls

  abbrev pub runs : Dir → Entries (Slot V) → List (Leaf V)
  runs d [] = []
  runs d ((b, c) ∷ es) = directed d (leaves c) ++ runs d es

  abbrev pub exact_list : Option (Leaf V) → List (Leaf V)
  exact_list none = []
  exact_list (some l) = l ∷ []

  -- Forward, the exact leaf comes first; backward, last.
  abbrev pub joined : Dir → List (Leaf V) → List (Leaf V) → List (Leaf V)
  joined forward e c = e ++ c
  joined backward e c = c ++ e

  abbrev pub frame_exact : Frame V → List (Leaf V)
  frame_exact f = if f.exact then exact_list (exact_leaf f.at) else []

  abbrev pub frame_leaves : Dir → Frame V → List (Leaf V)
  frame_leaves d f = joined d (frame_exact f) (runs d (ahead d f.next (entries f.at)))

  abbrev pub remaining : Dir → List (Frame V) → List (Leaf V)
  remaining d [] = []
  remaining d (f ∷ st) = frame_leaves d f ++ remaining d st

  -- A node that is well formed at some path.
  abbrev pub Sane : Node V → Type 0
  Sane n = (path : Key) × WfNode path n

  -- Every frame is over such a node, at whatever place in it.
  abbrev pub AllSane : List (Frame V) → Type 0
  AllSane [] = Unit
  AllSane (f ∷ st) = Sane f.at × AllSane st

  abbrev pub SaneEntries : Entries (Slot V) → Type 0
  SaneEntries [] = Unit
  SaneEntries ((b, c) ∷ es) = ((path : Key) × Wf path c) × SaneEntries es

  SaneEntries-of : (path : Key) (es : Entries (Slot V)) → WfEntries path es → SaneEntries es
  SaneEntries-of path [] w = tt
  SaneEntries-of path ((b, c) ∷ es) w = ((path ++ b ∷ [], w.1), SaneEntries-of path es w.2)

  ByteEntries-of : (path : Key) (es : Entries (Slot V)) → WfEntries path es → ByteEntries es
  ByteEntries-of path [] w = tt
  ByteEntries-of path ((b, c) ∷ es) w = (w.0, ByteEntries-of path es w.2)

  pub Sane-parts :
      (n : Node V)
      → Sane n
      → IsSorted (entries n) × ByteEntries (entries n) × SaneEntries (entries n)
  Sane-parts (node ty p ex cs) (path, w) =
      let e = WfAll-entries (path ++ p) cs w.5 in
      (
        w.3,
        ByteEntries-of (path ++ p) (to_entries cs) e,
        SaneEntries-of (path ++ p) (to_entries cs) e,
      )

  pub runs-append :
      (d : Dir) (es fs : Entries (Slot V)) → runs d (es ++ fs) ≡ runs d es ++ runs d fs
  runs-append d [] fs = refl
  runs-append d ((b, c) ∷ es) fs =
      ap (λ t. directed d (leaves c) ++ t) (runs-append d es fs)
      ∙ sym (append_assoc (directed d (leaves c)) (runs d es) (runs d fs))

  SaneEntries-append :
      (es fs : Entries (Slot V)) → SaneEntries es → SaneEntries fs → SaneEntries (es ++ fs)
  SaneEntries-append [] fs h g = g
  SaneEntries-append ((b, c) ∷ es) fs h g = (h.0, SaneEntries-append es fs h.1 g)

  SaneEntries-from : (k : ℕ) (es : Entries (Slot V)) → SaneEntries es → SaneEntries (from_byte k es)
  SaneEntries-from k [] h = tt
  SaneEntries-from k ((b, c) ∷ es) h = elim (Bool-cases (leb k b)) [
    | inl hit ↦ rw hit (h.0, SaneEntries-from k es h.1)
    | inr miss ↦ rw miss (SaneEntries-from k es h.1)
  ]

  SaneEntries-down : (k : ℕ) (es : Entries (Slot V)) → SaneEntries es → SaneEntries (down_from k es)
  SaneEntries-down k [] h = tt
  SaneEntries-down k ((b, c) ∷ es) h = elim (Bool-cases (leb b k)) [
    | inl hit ↦
        rw hit
          (SaneEntries-append (down_from k es) ((b, c) ∷ []) (SaneEntries-down k es h.1) (h.0, tt))
    | inr miss ↦ rw miss (SaneEntries-append (down_from k es) [] (SaneEntries-down k es h.1) tt)
  ]

  SaneEntries-ahead :
      (d : Dir) (next : ℤ) (es : Entries (Slot V)) → SaneEntries es → SaneEntries (ahead d next es)
  SaneEntries-ahead forward (pos k) es h = SaneEntries-from k es h
  SaneEntries-ahead forward (negsuc k) es h = tt
  SaneEntries-ahead backward (pos k) es h = SaneEntries-down k es h
  SaneEntries-ahead backward (negsuc k) es h = tt

  directed_leaf : (d : Dir) (l : Leaf V) → directed d (leaves (leaf l)) ≡ l ∷ []
  directed_leaf forward l = refl
  directed_leaf backward l = refl

  -- What a gathering takes off the leaves ahead.
  abbrev pub Takes : Dir → Entries (Slot V) → ℤ → List (Leaf V) × ℤ → Type ℓ
  Takes d es next r = runs d (ahead d next es) ≡ r.0 ++ runs d (ahead d r.1 es)

  module _ (d : Dir) (es : Entries (Slot V)) (s : IsSorted es) (b : ByteEntries es) where
    more_found-Takes :
        (go : ℤ → List (Leaf V) × ℤ) (next : ℤ) (o : Option (ℕ × Slot V))
        → ((n : ℤ) → Takes d es n (go n))
        → Splits d next es o
        → Takes d es next (more_found d go next o)
    more_found-Takes go next none h g = refl
    more_found-Takes go next (some (byte, null)) h g = refl
    more_found-Takes go next (some (byte, inner c)) h g = refl
    more_found-Takes go next (some (byte, leaf l)) h g =
        ap (runs d) g
        ∙ ap (λ t. t ++ runs d (ahead d (after d byte) es)) (directed_leaf d l)
        ∙ ap (λ t. l ∷ t) (h (after d byte))

    gather_more-Takes : (room : ℕ) (next : ℤ) → Takes d es next (gather_more room d es next)
    unfolding gather_more
    gather_more-Takes zero next = refl
    gather_more-Takes (suc room) next =
        more_found-Takes (gather_more room d es) next (found d next es) (gather_more-Takes room)
          (found-Splits d next es s b)

    -- What a gathering finds, and what is left ahead.
    abbrev pub Gathers : ℤ → Gathered V → Type ℓ
    Gathers next exhausted = runs d (ahead d next es) ≡ []
    Gathers next (descend c next') =
        Sane c × ((byte : ℕ) × (ahead d next es ≡ (byte, inner c) ∷ ahead d next' es))
    Gathers next (batch_of l ls next') =
        runs d (ahead d next es) ≡ l ∷ ls ++ runs d (ahead d next' es)

    gather_first-Gathers :
        (next : ℤ) (o : Option (ℕ × Slot V))
        → SaneEntries (ahead d next es)
        → Splits d next es o
        → Gathers next (gather_first d es o)
    unfolding gather_first
    gather_first-Gathers next none w g = ap (runs d) g
    gather_first-Gathers next (some (byte, null)) w g = absurd ((subst SaneEntries g w).0.1)
    gather_first-Gathers next (some (byte, leaf l)) w g =
        ap (runs d) g
        ∙ ap (λ t. t ++ runs d (ahead d (after d byte) es)) (directed_leaf d l)
        ∙ ap (λ t. l ∷ t) (gather_more-Takes 15 (after d byte))
    gather_first-Gathers next (some (byte, inner c)) w g = ((subst SaneEntries g w).0, (byte, g))

    pub gather-Gathers : (next : ℤ) → SaneEntries es → Gathers next (gather d es next)
    unfolding gather
    gather-Gathers next w =
        gather_first-Gathers next (found d next es) (SaneEntries-ahead d next es w)
          (found-Splits d next es s b)
