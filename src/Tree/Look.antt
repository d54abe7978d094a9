-- ===== src/Tree/Look.antt =====
-- The lookup one node at a time: a prefix, and what stands behind it.
use artmap.Prelude.{
  ℕ, suc, ◌+◌, ◌<◌, ◌≡◌, refl, ap, ◌∙◌, Option, none, [], ◌∷◌, ◌++◌, length, drop, if◌then◌else◌,
  ◌==◌, drop-drop, length-drop, arith,
}
use artmap.Prelude.Bytes.{Key, is_prefix_of}
use artmap.Tree.{inner, Node, prefix}
use artmap.Tree.Read.{get_slot, enter, follow}

module _ {ℓ} {A : Type ℓ} where
  -- `found` behind the prefix `p` of `rest`
  abbrev pub behind : Key → (Key → Option A) → Key → Option A
  behind p found rest = if is_prefix_of p rest then found (drop (length p) rest) else none

  -- `found` behind one byte
  abbrev pub at_byte : ℕ → (Key → Option A) → Key → Option A
  at_byte c found [] = none
  at_byte c found (b ∷ below) = if c == b then found below else none

  -- A prefix is a prefix, a byte and a prefix.
  pub behind_parts :
      (a : Key) (c : ℕ) (d : Key) (found : Key → Option A) (rest : Key)
      → behind (a ++ c ∷ d) found rest ≡ behind a (at_byte c (behind d found)) rest
  unfolding is_prefix_of
  behind_parts [] c d found [] = refl
  behind_parts [] c d found (b ∷ below) = ground arith
  behind_parts (x ∷ a) c d found [] = refl
  behind_parts (x ∷ a) c d found (y ∷ rest) = ground (arith, behind_parts a c d found rest)

  pub behind_cong :
      (p : Key) (f g : Key → Option A) (rest : Key)
      → f (drop (length p) rest) ≡ g (drop (length p) rest)
      → behind p f rest ≡ behind p g rest
  behind_cong p f g rest h = ap (λ t. if is_prefix_of p rest then t else none) h

-- Where the key stands behind a prefix and a byte.
pub drop_below :
    (key : Key) (depth n : ℕ) {b : ℕ} {below : Key}
    → drop n (drop depth key) ≡ b ∷ below
    → drop (depth + n + 1) key ≡ below
drop_below key depth n {b} {below} h =
    drop-drop (depth + n) 1 key ∙ ap (drop 1) (drop-drop depth n key ∙ h)

pub length_below :
    (rest : Key) (n : ℕ) {b : ℕ} {below : Key}
    → drop n rest ≡ b ∷ below
    → length below < length rest
length_below rest n h = omega (arith, length-drop n rest, ap length h)

module _ {ℓ} {V : Type ℓ} where
  pub get_slot-inner :
      (f : ℕ) (key : Key) (depth : ℕ) (n : Node V)
      → get_slot (suc f) key depth (inner n)
        ≡ behind
            (prefix n)
            (follow key (get_slot f key) (depth + length (prefix n)) n)
            (drop depth key)
  unfolding get_slot enter
  get_slot-inner f key depth n = refl
