-- ===== src/Backend/Tests.antt =====
-- Examples for src/backend: a NEAR indexer with thirty entries on two pages, and a Waves node with five
-- transactions.
use zeropool_relayer_rs.Prelude.{
  ℕ, ◌+◌, ◌-◌, ◌*◌, ◌≡◌, refl, true, false, Option, none, some, String, List, [], ◌∷◌, take, drop,
  ◌==◌, if◌then◌else◌, replicate, arith,
}
use zeropool_relayer_rs.Exec.{ok}
use zeropool_relayer_rs.Sample.{sample}
use zeropool_relayer_rs.Backend.Near.{
  NearRpc, IndexerEntry, IndexerTx, ArchivedTx, function_call, success_value, near_fetch,
}
use zeropool_relayer_rs.Tx.{TxCalldata}
use zeropool_relayer_rs.Backend.Near.Calls.{Relevants, ArchivedCalls}
use zeropool_relayer_rs.Backend.Waves.Calls.{TransactCalls}
use zeropool_relayer_rs.Backend.Near.Pages.{Serves, near_fetch-ArchivedCalls}
use zeropool_relayer_rs.Backend.Waves.{
  WavesNode, TransactionInfo, invoke, integer_entry, pos, waves_fetch,
}
use zeropool_relayer_rs.Backend.Waves.Fetch.{now, waves_fetch_ends, waves_fetch_never_ends}

abbrev call_entry : IndexerEntry
call_entry = record {
  transaction_hash = "h";
  predecessor_account_id = "sender";
  receiver_account_id = "pool";
  actions = record { action = "FUNCTION_CALL"; method = some "transact" } ∷ [];
  status = true;
}

abbrev elsewhere : IndexerEntry
elsewhere = record call_entry { receiver_account_id = "token" }

abbrev failed_entry : IndexerEntry
failed_entry = record call_entry { status = false }

abbrev other_method : IndexerEntry
other_method = record call_entry {
  actions = record { action = "FUNCTION_CALL"; method = some "lock" } ∷ [];
}

abbrev call_log : List IndexerEntry
call_log = elsewhere ∷ failed_entry ∷ other_method ∷ replicate 27 call_entry

abbrev call_details : String → String → ArchivedTx
call_details tx_hash sender = record {
  hash = 1 ∷ [];
  actions = function_call "lock" (6 ∷ []) ∷ function_call "transact" (7 ∷ []) ∷ [];
}

abbrev near : NearRpc sample ℕ
near = record {
  Chain = ℕ;
  account = "pool";
  tx_counts = λ w. (ok ("30" ∷ []), w);
  parse_count = λ _. some 30;
  txns_page = λ page per_page w. (ok (take per_page (drop ((page - 1) * 25) call_log)), w);
  archived_tx = λ tx_hash sender w. (ok (call_details tx_hash sender), w);
  write = λ _. ok [];
  access_key_nonce = λ w. (ok (some 0), w);
  broadcast_transact = λ nonce args w. (ok (1 ∷ []), w);
  tx_status = λ tx_hash w. (ok success_value, w);
  view_pool_index = λ w. (ok (some []), w);
  u64_from_le_bytes = λ _. ok 0;
  view_merkle_root = λ index w. (ok (some []), w);
  root_from_slice = λ _. some none;
}

abbrev near_Serves : Serves sample near 0 call_details call_log
near_Serves = record {
  archived = λ tx_hash sender. refl;
  pages = λ page. let e : page + 1 - 1 ≡ page = omega arith in rw e refl;
}

near_fetch-ArchivedCalls_example :
    (txs : List IndexerTx) × (calls : List TxCalldata) × Relevants "pool" call_log txs
    × ArchivedCalls call_details txs calls
    × (near_fetch sample near 0 ≡ (ok calls, 0))
near_fetch-ArchivedCalls_example =
    near_fetch-ArchivedCalls sample near 0 call_details call_log "30" [] near_Serves refl refl

abbrev waves_tx : ℕ → TransactionInfo
waves_tx n = record { id = n ∷ []; succeeded = true; tx_data = invoke "transact" (some (n ∷ [])) }

abbrev failed_tx : TransactionInfo
failed_tx = record (waves_tx 9) { succeeded = false }

-- The transactions after the one with this number, and the pages of a log.
abbrev after_number : ℕ → List TransactionInfo → List TransactionInfo
after_number n [] = []
after_number n (tx ∷ later) = elim tx.id [
  | [] ↦ after_number n later
  | ◌∷◌ m _ ↦ if m == n then later else after_number n later
]

abbrev page_after : List TransactionInfo → Option (List ℕ) → List TransactionInfo
page_after log none = take 100 log
page_after log (some []) = []
page_after log (some (n ∷ _)) = take 100 (after_number n log)

abbrev waves_with : (Option (List ℕ) → List TransactionInfo) → WavesNode sample ℕ
waves_with pages = record {
  Chain = ℕ;
  transactions_after = λ limit cursor w. (ok (pages cursor), w);
  pool_index_entry = λ w. (ok (integer_entry (pos 0)), w);
  root_entry = λ index w. (ok (integer_entry (pos 0)), w);
  from_big_endian = λ _. 0;
  write = λ _. ok [];
  sign = λ tx_bytes w. (ok tx_bytes, w);
  broadcast = λ signed_tx w. (ok [], w);
}

abbrev lock_tx : TransactionInfo
lock_tx = record (waves_tx 3) { tx_data = invoke "lock" (some (3 ∷ [])) }

abbrev no_argument : TransactionInfo
no_argument = record (waves_tx 4) { tx_data = invoke "transact" none }

abbrev waves_log : List TransactionInfo
waves_log = waves_tx 1 ∷ failed_tx ∷ lock_tx ∷ no_argument ∷ waves_tx 2 ∷ []

waves_fetch_ends_example :
    (calls : List TxCalldata) × (waves_fetch sample (waves_with (page_after waves_log)) 6 0
      ≡ (ok (some calls), 0))
    × TransactCalls waves_log calls
waves_fetch_ends_example =
    waves_fetch_ends sample (waves_with (page_after waves_log)) 0 waves_log 6 refl
      (refl, (refl, (refl, (refl, (refl, tt)))))
      (
        λ h. absurd (cc (h.0)),
        (
          λ h. absurd (cc (h.1.0)),
          (λ h. absurd (cc (h.0)), (λ h. absurd (cc (h.0)), (λ h. absurd (cc (h.0)), tt))),
        ),
      )
      (omega arith)

abbrev only_failed : WavesNode sample ℕ
only_failed = waves_with (λ _. failed_tx ∷ [])

waves_fetch_never_ends_example : waves_fetch sample only_failed 1000 0 ≡ (ok none, 0)
waves_fetch_never_ends_example =
    waves_fetch_never_ends sample only_failed 0 1000 (now none failed_tx [] refl (refl, tt))
