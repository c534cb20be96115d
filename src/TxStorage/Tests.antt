-- ===== src/TxStorage/Tests.antt =====
-- Examples for src/tx_storage.rs over the sample crates, with the stride 128.
use zeropool_relayer_rs.Prelude.{ℕ, ◌%◌, ◌≤◌, ◌<◌, ◌≡◌, ◌≢◌, refl, List, [], ◌∷◌, arith}
use zeropool_relayer_rs.Exec.{ok, err, index_not_in_steps, invalid_index}
use zeropool_relayer_rs.Exec.Disk.{sound}
use zeropool_relayer_rs.Sample.{sample}
use zeropool_relayer_rs.TxStorage.{TxTables, fresh, stride, record_bytes, set, push, rollback}
use zeropool_relayer_rs.TxStorage.Entries.{IsSound, fresh-IsSound}
use zeropool_relayer_rs.TxStorage.Write.{
  IsWrite, next_of, written, set_lem, push_lem, set-then-push, written-IsSound,
}
use zeropool_relayer_rs.TxStorage.Remove.{IsRollback, rollback-IsRollback}

-- Three transactions, at 0, 128 and 256.
abbrev bytes : List ℕ
bytes = record_bytes sample 7 (1 ∷ []) (2 ∷ [])

abbrev none_yet : IsSound sample (fresh sample)
none_yet = fresh-IsSound sample

abbrev one_tx : TxTables sample
one_tx = written sample (fresh sample) none_yet 0 bytes

abbrev one_tx_sound : IsSound sample one_tx
one_tx_sound = written-IsSound sample (fresh sample) none_yet 0 bytes

abbrev two_txs : TxTables sample
two_txs = written sample one_tx one_tx_sound 128 bytes

abbrev two_txs_sound : IsSound sample two_txs
two_txs_sound = written-IsSound sample one_tx one_tx_sound 128 bytes

abbrev three_txs : TxTables sample
three_txs = written sample two_txs two_txs_sound 256 bytes

abbrev three_txs_sound : IsSound sample three_txs
three_txs_sound = written-IsSound sample two_txs two_txs_sound 256 bytes

set_lem_example :
    (128 % stride sample ≡ 0
      → (t' : TxTables sample) × (set sample 128 7 (1 ∷ []) (2 ∷ []) (sound three_txs)
          ≡ (ok tt, sound t'))
        × IsWrite sample three_txs 128 bytes t')
    × (128 % stride sample ≢ 0
        → set sample 128 7 (1 ∷ []) (2 ∷ []) (sound three_txs)
          ≡ (err index_not_in_steps, sound three_txs))
set_lem_example = set_lem sample three_txs three_txs_sound 128 7 (1 ∷ []) (2 ∷ [])

push_lem_example :
    (384 ≤ next_of sample three_txs
      → (t' : TxTables sample) × (push sample 384 7 (1 ∷ []) (2 ∷ []) (sound three_txs)
          ≡ (ok tt, sound t'))
        × IsWrite sample three_txs 384 bytes t')
    × (next_of sample three_txs < 384
        → push sample 384 7 (1 ∷ []) (2 ∷ []) (sound three_txs)
          ≡ (err (invalid_index (next_of sample three_txs) 384), sound three_txs))
push_lem_example = push_lem sample three_txs three_txs_sound 384 7 (1 ∷ []) (2 ∷ [])

set-then-push_example :
    (t' : TxTables sample) × (set sample 0 7 (1 ∷ []) (2 ∷ []) (sound three_txs)
      ≡ (ok tt, sound t'))
    × (push sample 384 7 (1 ∷ []) (2 ∷ []) (sound t') ≡ (err (invalid_index 128 384), sound t'))
    × ((t'' : TxTables sample) × (push sample 384 7 (1 ∷ []) (2 ∷ []) (sound three_txs)
          ≡ (ok tt, sound t'')))
set-then-push_example =
    set-then-push sample three_txs 0 384 7 (1 ∷ []) (2 ∷ []) three_txs_sound refl (omega arith)
      (omega arith) (omega arith)

rollback-IsRollback_example :
    (256 % stride sample ≡ 0
      → (t' : TxTables sample) × (rollback sample 256 (sound three_txs) ≡ (ok tt, sound t'))
        × IsRollback sample three_txs 256 t')
    × (256 % stride sample ≢ 0
        → rollback sample 256 (sound three_txs) ≡ (err index_not_in_steps, sound three_txs))
rollback-IsRollback_example = rollback-IsRollback sample three_txs three_txs_sound 256
