-- ===== src/TxStorage/Entries.antt =====
-- The transactions that the tables of `TxStorage` (src/tx_storage.rs) hold, and their well-formedness.
use zeropool_relayer_rs.Prelude.{ℕ, ◌≡◌, Option, some, List}
use zeropool_relayer_rs.Crates.{Crates}
use zeropool_relayer_rs.TxStorage.{TxTables, fresh, read_entry}

module _ (c : Crates) where
  open c use {PersyId}

  -- The bytes at an index.
  abbrev pub entry : TxTables c → ℕ → Option (List ℕ)
  entry t i = read_entry c (c.tx_keys.index.one i t.keys) t.data_records

  -- Every key leads to a record, and no two keys to the same one.
  pub record IsSound (t : TxTables c) : Type 0 where
    pub live :
        (i : ℕ) (id : PersyId)
        → c.tx_keys.index.one i t.keys ≡ some id
        → (b : List ℕ) × (c.tx_data.read id t.data_records ≡ some b)
    pub distinct :
        (i j : ℕ) (id : PersyId)
        → c.tx_keys.index.one i t.keys ≡ some id
        → c.tx_keys.index.one j t.keys ≡ some id
        → i ≡ j

  pub fresh-IsSound : IsSound (fresh c)
  fresh-IsSound = record {
    live = λ i id e. absurd (cc (c.tx_keys.index.one-empty i, e));
    distinct = λ i j id e f. absurd (cc (c.tx_keys.index.one-empty i, e));
  }
