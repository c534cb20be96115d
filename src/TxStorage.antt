-- ===== src/TxStorage.antt =====
-- `TxStorage` of src/tx_storage.rs: the optimistic and the mined transactions by their index in the
-- pool, in one database. A `&[u8]` is a list of numbers.
pub mod Entries
pub mod Write
pub mod Remove
pub mod Range
mod Tests
use zeropool_relayer_rs.Prelude.{
  ℕ, zero, suc, ◌+◌, ◌%◌, ◌^◌, Option, none, some, List, [], ◌∷◌, ◌++◌, ◌==◌, ltb, unwrap_or,
  String, if◌then◌else◌,
}
use zeropool_relayer_rs.Exec.{
  Exec, Outcome, ok, err, panic, index_not_in_steps, invalid_index, record_not_found, pure, raise,
  expect, ◌>>=◌, ◌>>◌,
}
use zeropool_relayer_rs.Exec.Disk.{Disk, io, begin, commit}
use zeropool_relayer_rs.Crates.{Crates}

module _ (c : Crates) where
  open c use {Hash, PersyId, to_big_endian, out}

  -- `STRIDE`.
  abbrev pub stride : ℕ
  stride = (out + 1) % 2 ^ 64

  pub record TxTables : Type 0 where
    pub data_records : c.tx_data.Records
    pub keys : c.tx_keys.index.Table
    pub meta : c.tx_meta.Table

  abbrev pub TxAct : Type 0 → Type 0
  TxAct A = Exec (Disk TxTables) A

  -- What `open` puts into a new file.
  abbrev pub fresh : TxTables
  fresh = record {
    data_records = c.tx_data.no_records;
    keys = c.tx_keys.index.empty;
    meta = c.tx_meta.put "next_index" 0 c.tx_meta.empty;
  }

  -- `open_or_create_with`: the initial tables are written only into a new file.
  unfoldable pub open_storage : Option TxTables → TxTables
  open_storage none = fresh
  open_storage (some t) = t

  -- `clear_and_open`: the file is removed first.
  unfoldable pub clear_and_open : Option TxTables → Option TxTables
  unfolding open_storage
  clear_and_open none = none
  clear_and_open (some t) = some (open_storage none)

  abbrev pub record_bytes : Hash → List ℕ → List ℕ → List ℕ
  record_bytes out_commit tx_hash memo = to_big_endian out_commit ++ (tx_hash ++ memo)

  -- The transaction that `set` and `push` share.
  unfoldable pub write_entry : ℕ → List ℕ → TxAct (Unit {0})
  unfolding io begin commit
  write_entry index buf = do
    tx ← begin
    io
    let inserted = c.tx_data.insert buf tx.data_records
    io
    io
    commit (record {
      data_records = inserted.1;
      keys = c.tx_keys.index.put index inserted.0 tx.keys;
      meta = c.tx_meta.put "next_index" ((index + stride) % 2 ^ 64) tx.meta;
    })

  unfoldable pub set : ℕ → Hash → List ℕ → List ℕ → TxAct (Unit {0})
  set index out_commit tx_hash memo =
      if index % stride == 0
      then write_entry index (record_bytes out_commit tx_hash memo)
      else raise index_not_in_steps

  unfoldable pub next_index : TxAct ℕ
  unfolding io
  next_index = do io; λ d. (ok (unwrap_or (c.tx_meta.one "next_index" d.tables.meta) 0), d)

  unfoldable pub push : ℕ → Hash → List ℕ → List ℕ → TxAct (Unit {0})
  push index out_commit tx_hash memo = do
    next ← next_index
    if ltb next index
        then raise (invalid_index next index)
        else write_entry index (record_bytes out_commit tx_hash memo)

  -- `Persy::read` behind the look-up of the identifier.
  abbrev pub read_entry : Option PersyId → c.tx_data.Records → Option (List ℕ)
  read_entry none data_records = none
  read_entry (some id) data_records = c.tx_data.read id data_records

  unfoldable pub get : ℕ → TxAct (Option (List ℕ))
  unfolding io
  get index = do
    io
    λ d. (ok (read_entry (c.tx_keys.index.one index d.tables.keys) d.tables.data_records), d)

  unfoldable pub remove_entry : TxTables → ℕ → PersyId → TxAct TxTables
  unfolding io
  remove_entry tx index id = do
    io
    io
    elim (c.tx_data.delete id tx.data_records) [
      | none ↦ raise record_not_found
      | some rest ↦
          pure (record tx { keys = c.tx_keys.index.remove index tx.keys; data_records = rest })
    ]

  unfoldable pub remove_all : List (ℕ × PersyId) → TxTables → TxAct TxTables
  remove_all [] tx = pure tx
  remove_all ((index, id) ∷ indices) tx = do tx' ← remove_entry tx index id; remove_all indices tx'

  unfoldable pub remove_from : ℕ → TxAct (Unit {0})
  unfolding io begin commit
  remove_from index = do
    io
    indices ← (λ d. (ok (c.tx_keys.range index none d.tables.keys), d))
    tx ← begin
    tx' ← remove_all indices tx
    io
    commit (record tx' { meta = c.tx_meta.put "next_index" index tx'.meta })

  -- `TxStorage::rollback`; its part after the guard is `remove_from`.
  unfoldable pub rollback : ℕ → TxAct (Unit {0})
  rollback index = if index % stride == 0 then remove_from index else raise index_not_in_steps

  -- The items of the iterator of `iter_range`, up to the first error.
  unfoldable pub read_all : List (ℕ × PersyId) → TxAct (List (ℕ × List ℕ))
  unfolding io
  read_all [] = pure []
  read_all ((index, id) ∷ indices) = do
    io
    data_bytes ← (λ d. expect (c.tx_data.read id d.tables.data_records) d)
    rest ← read_all indices
    pure ((index, data_bytes) ∷ rest)

  unfoldable pub iter_range : ℕ → Option ℕ → TxAct (List (ℕ × List ℕ))
  unfolding io read_all
  iter_range lo hi = do
    io
    indices ← (λ d. (ok (c.tx_keys.range lo hi d.tables.keys), d))
    read_all indices

  unfoldable pub iter : TxAct (List (ℕ × List ℕ))
  unfolding iter_range
  iter = iter_range 0 none

  unfoldable pub len : TxAct ℕ
  unfolding next_index
  len = next_index
