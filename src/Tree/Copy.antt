-- ===== src/Tree/Copy.antt =====
-- Copies of a node into another type (`copy_into` of src/raw/node.rs).
use artmap.Prelude.{ℕ, ◌<◌, ◌≡◌, refl, sym, ap, ◌∙◌, [], ◌∷◌, ◌++◌, Option, arith}
use artmap.Prelude.Bytes.{Key}
use mathlib.Core.List.{append_assoc, append-nil}
use artmap.Prelude.Entries.{Entries, Above, IsSorted, insert}
use artmap.Tree.{
  NodeType, Leaf, Slot, Node, node, entries, to_entries, of_entries, to_entries-of_entries, fresh,
  store_prefix, set_exact_leaf, insert_child, push_all, copy_into, retype, Children, nil, cons,
}

module _ {ℓ} {A : Type ℓ} where
  -- every byte lies below `b`
  abbrev pub Below : ℕ → Entries A → Type 0
  Below b [] = Unit
  Below b ((k, c) ∷ es) = (k < b) × Below b es

  insert_last : (b : ℕ) (a : A) (es : Entries A) → Below b es → insert b a es ≡ es ++ (b, a) ∷ []
  unfolding insert
  insert_last b a [] h = refl
  insert_last b a ((k, c) ∷ es) h = ground (arith, insert_last b a es h.1)

  Below-append :
      (b k : ℕ) (c : A) (es : Entries A) → Below b es → k < b → Below b (es ++ (k, c) ∷ [])
  Below-append b k c [] h lt = (lt, tt)
  Below-append b k c ((j, d) ∷ es) h lt = (h.0, Below-append b k c es h.1 lt)

  pub Below-mono : (m n : ℕ) (es : Entries A) → m < n → Below m es → Below n es
  Below-mono m n [] lt h = tt
  Below-mono m n ((k, c) ∷ es) lt h = (omega arith, Below-mono m n es lt h.1)

  abbrev pub LiesBelow : Entries A → Entries A → Type 0
  LiesBelow [] acc = Unit
  LiesBelow ((b, c) ∷ es) acc = Below b acc

  pub LiesBelow-next :
      (b : ℕ) (c : A) (es acc : Entries A)
      → Below b acc
      → Above b es
      → LiesBelow es (acc ++ (b, c) ∷ [])
  LiesBelow-next b c [] acc h a = tt
  LiesBelow-next b c ((k, d) ∷ es) acc h a = Below-append k b c acc (Below-mono b k acc a.0 h) a.0

module _ {ℓ} {V : Type ℓ} where
  pub of_entries-to_entries : (cs : Children V) → of_entries (to_entries cs) ≡ cs
  of_entries-to_entries nil = refl
  of_entries-to_entries (cons b s cs) = ap (cons b s) (of_entries-to_entries cs)

  -- Entries in order land behind those that are there.
  push_all-append :
      (es acc : Entries (Slot V)) (ty : NodeType) (p : Key) (ex : Option (Leaf V))
      → IsSorted es
      → LiesBelow es acc
      → push_all es (node ty p ex (of_entries acc)) ≡ node ty p ex (of_entries (acc ++ es))
  unfolding push_all insert_child
  push_all-append [] acc ty p ex s h = ap (λ t. node ty p ex (of_entries t)) (sym (append-nil acc))
  push_all-append ((b, c) ∷ es) acc ty p ex s h =
      ap (λ t. push_all es (node ty p ex (of_entries (insert b c t)))) (to_entries-of_entries acc)
      ∙ ap (λ t. push_all es (node ty p ex (of_entries t))) (insert_last b c acc h)
      ∙ push_all-append es (acc ++ (b, c) ∷ []) ty p ex s.1 (LiesBelow-next b c es acc h s.0)
      ∙ ap (λ t. node ty p ex (of_entries t)) (append_assoc acc ((b, c) ∷ []) es)

  -- The copy of a node into a fresh one of another type differs in its type alone.
  pub copy_into-fresh :
      (n : Node V) (ty : NodeType) → IsSorted (entries n) → copy_into n (fresh ty) ≡ retype ty n
  unfolding copy_into fresh store_prefix set_exact_leaf
  copy_into-fresh (node t p ex cs) ty s =
      push_all-append (to_entries cs) [] ty p ex s (fits (to_entries cs))
      ∙ ap (node ty p ex) (of_entries-to_entries cs)
    where
      fits : (es : Entries (Slot V)) → LiesBelow es []
      fits [] = tt
      fits ((b, c) ∷ es) = tt
