-- ===== src/Merkle/Storage.antt =====
-- `Storage` of src/merkle_tree.rs: the nodes of the tree, the number of leaves and the historic
-- roots in one database. A node's key is its place in a level-by-level numbering.
use zeropool_relayer_rs.Prelude.{
  ℕ, zero, suc, ◌+◌, ◌-◌, ◌%◌, ◌^◌, Option, none, some, List, [], ◌∷◌, String,
}
use zeropool_relayer_rs.Exec.{Exec, Outcome, ok, err, invalid_data, pure, expect, ◌>>=◌, ◌>>◌}
use zeropool_relayer_rs.Exec.Disk.{Disk, io, begin, commit}
use zeropool_relayer_rs.Crates.{Crates}

-- `1 << depth` on a `u64`: the shift is by the low six bits.
abbrev pub shl_one : ℕ → ℕ
shl_one depth = 2 ^ (depth % 64) % 2 ^ 64

-- `Storage::key`, in wrapping `u64` arithmetic.
unfoldable pub key : ℕ → ℕ → ℕ
key depth index = ((shl_one depth + 2 ^ 64 - 1) % 2 ^ 64 + index) % 2 ^ 64

module _ (c : Crates) where
  open c use {Hash, to_vec, try_from_slice, to_string, from_str}

  pub record Tables : Type 0 where
    pub data_index : c.data_index.Table
    pub meta_index : c.meta_index.Table
    pub roots : c.roots.Table

  abbrev pub Act : Type 0 → Type 0
  Act A = Exec (Disk Tables) A

  -- What `clear` leaves, and what `open` puts into a new file.
  abbrev pub fresh : Tables
  fresh = record {
    data_index = c.data_index.empty;
    meta_index = c.meta_index.put "num_leaves" 0 c.meta_index.empty;
    roots = c.roots.empty;
  }

  unfoldable pub clear : Act (Unit {0})
  unfolding io begin commit
  clear = do tx ← begin; io; io; io; io; io; io; io; commit fresh

  unfoldable pub set_num_leaves_tx : Tables → ℕ → Act Tables
  unfolding io
  set_num_leaves_tx tx index = do
    io
    pure (record tx { meta_index = c.meta_index.put "num_leaves" index tx.meta_index })

  unfoldable pub set_num_leaves : ℕ → Act (Unit {0})
  unfolding set_num_leaves_tx begin commit
  set_num_leaves index = do tx ← begin; tx' ← set_num_leaves_tx tx index; commit tx'

  unfoldable pub get_num_leaves : Act ℕ
  unfolding io
  get_num_leaves = do io; λ d. expect (c.meta_index.one "num_leaves" d.tables.meta_index) d

  unfoldable pub set_tx : Tables → ℕ → ℕ → Hash → Act Tables
  unfolding io
  set_tx tx depth index value = do
    io
    pure
        (record tx { data_index = c.data_index.put (key depth index) (to_vec value) tx.data_index })

  unfoldable pub set : ℕ → ℕ → Hash → Act (Unit {0})
  unfolding set_tx begin commit
  set depth index value = do tx ← begin; tx' ← set_tx tx depth index value; commit tx'

  -- `Hash::try_from_slice(&data)?` on what a lookup found.
  unfoldable pub decode : Option (List ℕ) → Outcome (Option Hash)
  decode none = ok none
  decode (some data_bytes) = elim (try_from_slice data_bytes) [
    | none ↦ err invalid_data
    | some h ↦ ok (some h)
  ]

  unfoldable pub get : ℕ → ℕ → Act (Option Hash)
  unfolding decode io
  get depth index = do io; λ d. (decode (c.data_index.one (key depth index) d.tables.data_index), d)

  unfoldable pub get_tx : Tables → ℕ → ℕ → Act (Option Hash)
  unfolding decode io
  get_tx tx depth index = do io; λ d. (decode (c.data_index.one (key depth index) tx.data_index), d)

  unfoldable pub delete_tx : Tables → ℕ → ℕ → Act Tables
  unfolding io
  delete_tx tx depth index = do
    io
    pure (record tx { data_index = c.data_index.remove (key depth index) tx.data_index })

  unfoldable pub delete : ℕ → ℕ → Act (Unit {0})
  unfolding delete_tx begin commit
  delete depth index = do tx ← begin; tx' ← delete_tx tx depth index; commit tx'

  set_all_tx : Tables → List (ℕ × ℕ × Hash) → Act Tables
  set_all_tx tx [] = pure tx
  set_all_tx tx ((depth, index, value) ∷ values) = do
    tx' ← set_tx tx depth index value
    set_all_tx tx' values

  unfoldable pub set_multiple : List (ℕ × ℕ × Hash) → Act (Unit {0})
  unfolding set_all_tx begin commit
  set_multiple values = do tx ← begin; tx' ← set_all_tx tx values; commit tx'

  delete_all_tx : Tables → List (ℕ × ℕ) → Act Tables
  delete_all_tx tx [] = pure tx
  delete_all_tx tx ((depth, index) ∷ values) = do
    tx' ← delete_tx tx depth index
    delete_all_tx tx' values

  unfoldable pub delete_multiple : List (ℕ × ℕ) → Act (Unit {0})
  unfolding delete_all_tx begin commit
  delete_multiple values = do tx ← begin; tx' ← delete_all_tx tx values; commit tx'

  unfoldable pub add_root : ℕ → Hash → Act (Unit {0})
  unfolding io begin commit
  add_root index root = do
    tx ← begin
    io
    commit (record tx { roots = c.roots.put index (to_string root) tx.roots })

  -- `Hash::from_str(&data)` on what a lookup found.
  unfoldable pub parse_root : Option String → Outcome (Option Hash)
  parse_root none = ok none
  parse_root (some text) = elim (from_str text) [ none ↦ err invalid_data | some h ↦ ok (some h) ]

  unfoldable pub get_root : ℕ → Act (Option Hash)
  unfolding parse_root io
  get_root index = do io; λ d. (parse_root (c.roots.one index d.tables.roots), d)

  unfoldable pub delete_root_tx : Tables → ℕ → Act Tables
  unfolding io
  delete_root_tx tx index = do io; pure (record tx { roots = c.roots.remove index tx.roots })

  -- `delete_roots_tx` over the `count` indices from `index` on.
  unfoldable pub delete_roots_tx : Tables → ℕ → ℕ → Act Tables
  unfolding delete_root_tx
  delete_roots_tx tx index zero = pure tx
  delete_roots_tx tx index (suc count) = do
    tx' ← delete_root_tx tx index
    delete_roots_tx tx' (index + 1) count
