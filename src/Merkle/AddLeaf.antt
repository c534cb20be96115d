-- ===== src/Merkle/AddLeaf.antt =====
-- `add_leaf` of src/merkle_tree.rs against the list of leaves.
use zeropool_relayer_rs.Prelude.{
  ℕ, zero, suc, ◌+◌, ◌^◌, ◌≤◌, ◌<◌, ◌≡◌, refl, ap, ◌∙◌, inl, inr, Bool-cases, some, List, [], ◌∷◌,
  ◌++◌, length, length-append, take, get_elem?, arith, ◌==◌, ==_iff, if◌then◌else◌,
}
use zeropool_relayer_rs.Exec.{ok, bind_ok}
use zeropool_relayer_rs.Exec.Disk.{sound}
use zeropool_relayer_rs.Crates.{Crates}
use zeropool_relayer_rs.Merkle.Storage.{Tables, get_num_leaves, set_num_leaves, add_root}
use zeropool_relayer_rs.Merkle.Tree.{MerkleTree, tree_height, next_u64, set_node, root, add_leaf}
use zeropool_relayer_rs.Merkle.View.{
  value, stored, HasDefaults, root_lem, value-stored_self, value-stored_ne,
}
use zeropool_relayer_rs.Merkle.Consistent.{IsMerkle, key_ne}
use zeropool_relayer_rs.Merkle.Keys.{pow_le}
use zeropool_relayer_rs.Merkle.Insert.{IsRehash, set_node_lem}
use zeropool_relayer_rs.Merkle.Spec.{leaf_at, root_of, Represents, Remembers, value-root}

get_elem?-append_end {ℓ} :
    {A : Type ℓ} (xs : List A) (y : A) (j : ℕ)
    → get_elem? (xs ++ y ∷ []) j ≡ (if j == length xs then some y else get_elem? xs j)
get_elem?-append_end [] y zero = refl
get_elem?-append_end [] y (suc j) = ground arith
get_elem?-append_end (x ∷ xs) y zero = ground arith
get_elem?-append_end (x ∷ xs) y (suc j) = ground (arith, get_elem?-append_end xs y j)

take-append {ℓ} :
    {A : Type ℓ} (k : ℕ) (xs ys : List A) → k ≤ length xs → take k (xs ++ ys) ≡ take k xs
take-append zero xs ys h = refl
take-append (suc k) [] ys h = elim h [ ]
take-append (suc k) (x ∷ xs) ys h = ap (λ l. x ∷ l) (take-append k xs ys (omega arith))

take_all {ℓ} : {A : Type ℓ} (xs : List A) → take (length xs) xs ≡ xs
take_all [] = refl
take_all (x ∷ xs) = ap (λ l. x ∷ l) (take_all xs)

module _ (c : Crates) where
  open c use {Hash, to_string}

  -- The other indexes do not matter to the nodes.
  abbrev with_indexes : Tables c → c.meta_index.Table → c.roots.Table → Tables c
  with_indexes t meta roots = record t { meta_index = meta; roots = roots }

  IsMerkle-with_indexes :
      (t : Tables c) (meta : c.meta_index.Table) (roots : c.roots.Table)
      → IsMerkle c t
      → IsMerkle c (with_indexes t meta roots)
  unfolding value
  IsMerkle-with_indexes t meta roots m = record { at = m.at }

  module _ (small : tree_height c ≤ 62) (tree : MerkleTree c) (defaults : HasDefaults c tree)
      (leaves : List Hash) (room : length leaves < 2 ^ tree_height c) where
    leaves_after :
        (t tx : Tables c) (h : Hash)
        → Represents c t leaves
        → IsRehash c (stored c t (tree_height c) (length leaves) h) tx
        → (j : ℕ) → j < 2 ^ tree_height c
        → value c tx (tree_height c) j ≡ leaf_at c (leaves ++ h ∷ []) j
    leaves_after t tx h r re j hj = elim (Bool-cases (j == length leaves)) [
      | inl same ↦
          let e : j ≡ length leaves = (==_iff j (length leaves)).0 same in
          rw (get_elem?-append_end leaves h j, same)
            (re.leaves j hj ∙ rw e (value-stored_self c t (tree_height c) (length leaves) h))
      | inr other ↦
          rw (get_elem?-append_end leaves h j, other)
            (re.leaves j hj
              ∙ value-stored_ne c t (tree_height c) (length leaves) h (tree_height c) j (
                  key_ne c small (tree_height c) (tree_height c) (length leaves) j (omega arith)
                    (omega arith) room hj (λ s. ground (arith, s.1)))
              ∙ r.at j hj)
    ]

    -- The tables that `add_leaf` leaves, from those that `set_node` left.
    abbrev final : Tables c → Tables c
    final t₁ =
        with_indexes t₁ (c.meta_index.put "num_leaves" (next_u64 (length leaves)) t₁.meta_index)
          (c.roots.put (next_u64 (length leaves)) (to_string (value c t₁ 0 0)) t₁.roots)

    no_wrap : next_u64 (length leaves) ≡ length leaves + 1
    no_wrap = omega (arith, pow_le (tree_height c) 62 small)

    final-Represents :
        (t t₁ : Tables c) (h : Hash)
        → Represents c t leaves
        → IsRehash c (stored c t (tree_height c) (length leaves) h) t₁
        → Represents c (final t₁) (leaves ++ h ∷ [])
    unfolding value
    final-Represents t t₁ h r re = record {
      readable = record { reads = re.readable.reads };
      merkle = IsMerkle-with_indexes t₁ _ _ re.merkle;
      count =
          c.meta_index.one-put "num_leaves" "num_leaves" (next_u64 (length leaves)) t₁.meta_index
          ∙ ap (λ n. some n) (omega (arith, no_wrap, length-append leaves (h ∷ [])));
      at = leaves_after t t₁ h r re;
    }

    final-root :
        (t t₁ : Tables c) (h : Hash)
        → Represents c t leaves
        → IsRehash c (stored c t (tree_height c) (length leaves) h) t₁
        → value c t₁ 0 0 ≡ root_of c (leaves ++ h ∷ [])
    unfolding value
    final-root t t₁ h r re =
        value-root c (final t₁) (leaves ++ h ∷ []) (final-Represents t t₁ h r re)

    final-Remembers :
        (t t₁ : Tables c) (h : Hash)
        → Represents c t leaves
        → Remembers c t leaves
        → IsRehash c (stored c t (tree_height c) (length leaves) h) t₁
        → Remembers c (final t₁) (leaves ++ h ∷ [])
    final-Remembers t t₁ h r hist re = record {
      roots_at = λ k hk. elim (Bool-cases (next_u64 (length leaves) == k)) [
        | inl newest ↦
            let e : k ≡ length (leaves ++ h ∷ []) =
              ground (arith, no_wrap, length-append leaves (h ∷ [])) in
            rw (c.roots.one-put, newest)
              (rw (e, take_all (leaves ++ h ∷ []))
                (ap (λ v. some (to_string v)) (final-root t t₁ h r re)))
        | inr older ↦
            let le : k ≤ length leaves = ground (arith, no_wrap, length-append leaves (h ∷ [])) in
            rw (c.roots.one-put, older)
              (rw (take-append k leaves (h ∷ []) le, re.roots) (hist.roots_at k le))
      ];
    }

    -- Where the database holds the tree over a list of leaves and the roots of its prefixes, no
    -- I/O call fails, the height is at most 62 and the tree is not full, `add_leaf` succeeds and
    -- the database then holds the same for the list with the new leaf at its end.
    pub add_leaf-Represents :
        (t : Tables c) (h : Hash)
        → Represents c t leaves
        → Remembers c t leaves
        → (t' : Tables c) × (add_leaf c tree h (sound t) ≡ (ok tt, sound t'))
          × Represents c t' (leaves ++ h ∷ [])
          × Remembers c t' (leaves ++ h ∷ [])
    unfolding add_leaf get_num_leaves set_num_leaves add_root value
    add_leaf-Represents t h r hist =
        let n = length leaves in
        let (t₁, run, re) = set_node_lem c small tree defaults t n h room r.readable r.merkle in
        let t₂ =
          with_indexes t₁ (c.meta_index.put "num_leaves" (next_u64 n) t₁.meta_index) t₁.roots in
        (
          final t₁,
          rw (r.count) (
              bind_ok (set_node c tree (tree_height c) n h) _ (sound t) run
              ∙ bind_ok (root c tree) _ (sound t₂)
                  (root_lem c tree defaults t₂ (record { reads = re.readable.reads }))),
          final-Represents t t₁ h r re,
          final-Remembers t t₁ h r hist re,
        )
