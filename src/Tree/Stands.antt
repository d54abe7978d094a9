-- ===== src/Tree/Stands.antt =====
-- A key at a path of the tree: the path is the part of the key that the descent has consumed.
use artmap.Prelude.{
  ℕ, ◌+◌, ◌≡◌, refl, sym, ap, ◌∙◌, true, [], ◌∷◌, ◌++◌, length, drop, length-append, drop-append,
  arith,
}
use mathlib.Core.List.{append_assoc, append-nil}
use artmap.Prelude.Bytes.{Key, is_prefix_of, is_prefix_of_sound, bytes_eq, bytes_eq-append}
use artmap.Tree.{Leaf}
use artmap.Tree.Wf.{Continues}
use artmap.Tree.Look.{drop_below}

pub record Stands (key path : Key) (depth : ℕ) : Type 0 where
  pub measured : depth ≡ length path
  pub joined : key ≡ path ++ drop depth key

pub Stands-root : (key : Key) → Stands key [] 0
Stands-root key = record { measured = refl; joined = refl }

pub Continues-Stands {ℓ} :
    {V : Type ℓ} (path : Key) (depth : ℕ) (l : Leaf V)
    → depth ≡ length path
    → Continues path l
    → Stands l.key path depth
Continues-Stands path depth l e (rest, h, bytes) = record {
  measured = e;
  joined = h ∙ ap (λ t. path ++ t) (sym (ap (drop depth) h ∙ rw e (drop-append path rest)));
}

pub Stands-below :
    (key path p : Key) (depth : ℕ) {b : ℕ} {below : Key}
    → Stands key path depth
    → is_prefix_of p (drop depth key) ≡ true
    → drop (length p) (drop depth key) ≡ b ∷ below
    → Stands key ((path ++ p) ++ b ∷ []) (depth + length p + 1)
Stands-below key path p depth {b} {below} st ip e = record {
  measured = omega (arith, st.measured, length-append (path ++ p) (b ∷ []), length-append path p);
  joined =
      st.joined
      ∙ ap (λ t. path ++ t) (is_prefix_of_sound p (drop depth key) ip)
      ∙ ap (λ t. path ++ (p ++ t)) e
      ∙ sym (append_assoc path p (b ∷ below))
      ∙ sym (append_assoc (path ++ p) (b ∷ []) below)
      ∙ ap (λ t. ((path ++ p) ++ b ∷ []) ++ t) (sym (drop_below key depth (length p) e));
}

-- Keys at one path are equal when they go on alike.
pub bytes_eq-Stands :
    (k j path : Key) (depth : ℕ)
    → Stands k path depth
    → Stands j path depth
    → bytes_eq k j ≡ bytes_eq (drop depth k) (drop depth j)
bytes_eq-Stands k j path depth s t =
    ap (λ x. bytes_eq x j) s.joined
    ∙ ap (λ x. bytes_eq (path ++ drop depth k) x) t.joined
    ∙ bytes_eq-append path (drop depth k) (drop depth j)

-- A key that ends behind the prefix of a node is the path of the node.
pub Stands-end :
    (key path p : Key) (depth : ℕ)
    → Stands key path depth
    → is_prefix_of p (drop depth key) ≡ true
    → drop (length p) (drop depth key) ≡ []
    → key ≡ path ++ p
Stands-end key path p depth st ip e =
    st.joined
    ∙ ap (λ t. path ++ t)
        (is_prefix_of_sound p (drop depth key) ip ∙ ap (λ t. p ++ t) e ∙ append-nil p)
