-- ===== src/Backend/Near.antt =====
-- src/backend/near.rs: the pool contract on NEAR, and the indexer that lists its transactions.
pub mod Calls
pub mod Pages
pub mod Memo
pub mod Node
use text.Mathlib.Text.{◌==◌ as str_eq}
use zeropool_relayer_rs.Prelude.{
  ℕ, zero, suc, ◌+◌, ◌*◌, ◌/◌, ◌^◌, Bool, true, false, not, ◌&&◌, ◌||◌, Option, none, some, List,
  [], ◌∷◌, ◌++◌, String, ◌==◌, ltb, length, take, drop, if◌then◌else◌,
}
use zeropool_relayer_rs.Exec.{
  Exec, Outcome, ok, err, panic, invalid_data, unexpected_response, tx_failed, no_tx_count,
  unknown_network, pure, raise, lift, ◌>>=◌, ◌>>◌,
}
use zeropool_relayer_rs.Crates.{Crates}
use zeropool_relayer_rs.Tx.{TxType, deposit, transfer, withdraw, TxCalldata, TxData}
use zeropool_relayer_rs.Config.{NearConfig}
use zeropool_relayer_rs.Backend.{memo_from}
use zeropool_relayer_rs.Backend.Mock.{or_invalid}

-- `u32::from_le_bytes`.
abbrev pub u32_from_le_bytes : List ℕ → ℕ
u32_from_le_bytes [] = 0
u32_from_le_bytes (b ∷ bytes) = b + 256 * u32_from_le_bytes bytes

-- A withdrawal's memo has the length of an address in the bytes 20 to 23.
unfoldable pub near_ciphertext : List ℕ → TxType → Outcome (List ℕ)
near_ciphertext memo deposit = memo_from 8 memo
near_ciphertext memo transfer = memo_from 8 memo
near_ciphertext memo withdraw =
    if ltb (length memo) 24
    then panic
    else memo_from (16 + 4 + u32_from_le_bytes (take 4 (drop 20 memo))) memo

-- What the indexer says of a transaction.
pub record IndexerAction : Type 0 where
  pub action : String
  pub method : Option String

pub record IndexerEntry : Type 0 where
  pub transaction_hash : String
  pub predecessor_account_id : String
  pub receiver_account_id : String
  pub actions : List IndexerAction
  pub status : Bool

pub record IndexerTx : Type 0 where
  pub hash : String
  pub sender : String

abbrev pub is_transact : IndexerAction → Bool
is_transact a =
    str_eq a.action "FUNCTION_CALL"
    && elim a.method [ none ↦ false | some method ↦ str_eq method "transact" ]

abbrev pub has_transact : List IndexerAction → Bool
has_transact [] = false
has_transact (a ∷ actions) = is_transact a || has_transact actions

abbrev pub relevant : String → IndexerEntry → Option IndexerTx
relevant account tx =
    if not (str_eq tx.receiver_account_id account) || not tx.status
    then none
    else if has_transact tx.actions
    then some (record { hash = tx.transaction_hash; sender = tx.predecessor_account_id })
    else none

-- `filter_map(..).collect()`.
unfoldable pub relevant_txs : String → List IndexerEntry → List IndexerTx
relevant_txs account [] = []
relevant_txs account (tx ∷ txns) = elim (relevant account tx) [
  | none ↦ relevant_txs account txns
  | some found ↦ found ∷ relevant_txs account txns
]

-- What the archive node says of a transaction.
pub data ActionView : Type 0 where
  function_call : String → List ℕ → ActionView
  other_action : ActionView

pub record ArchivedTx : Type 0 where
  pub hash : List ℕ
  pub actions : List ActionView

unfoldable pub transact_calls : List ℕ → List ActionView → List TxCalldata
transact_calls tx_hash [] = []
transact_calls tx_hash (other_action ∷ actions) = transact_calls tx_hash actions
transact_calls tx_hash (function_call method_name args ∷ actions) =
    let rest = transact_calls tx_hash actions in
    if str_eq method_name "transact"
    then record { hash = tx_hash; calldata = args } ∷ rest
    else rest

pub data FinalExecutionStatus : Type 0 where
  failure success_value unfinished : FinalExecutionStatus

-- The node, the archive node and the indexer, and the codec of `zeropool_tx::near`; `none` stands
-- for a response of another kind.
pub record NearRpc (c : Crates) (P : Type 0) : Type 1 where
  pub Chain : Type 0
  pub account : String
  pub tx_counts : Exec Chain (List String)
  pub parse_count : String → Option ℕ
  pub txns_page : ℕ → ℕ → Exec Chain (List IndexerEntry)
  pub archived_tx : String → String → Exec Chain ArchivedTx
  pub write : TxData c P → Outcome (List ℕ)
  pub access_key_nonce : Exec Chain (Option ℕ)
  pub broadcast_transact : ℕ → List ℕ → Exec Chain (List ℕ)
  pub tx_status : List ℕ → Exec Chain FinalExecutionStatus
  pub view_pool_index : Exec Chain (Option (List ℕ))
  pub u64_from_le_bytes : List ℕ → Outcome ℕ
  pub view_merkle_root : ℕ → Exec Chain (Option (List ℕ))
  pub root_from_slice : List ℕ → Option (Option ℕ)

abbrev pub indexer_url : String → String → Outcome (String × String)
indexer_url network account =
    if str_eq network "mainnet"
    then ok ("https://api.nearblocks.io/v1/account/", account)
    else if str_eq network "testnet"
    then ok ("https://api-testnet.nearblocks.io/v1/account/", account)
    else err unknown_network

module _ (c : Crates) {P : Type 0} (n : NearRpc c P) where
  open n use {Chain}

  abbrev pub parsed_count : Option ℕ → Outcome ℕ
  parsed_count none = err invalid_data
  parsed_count (some tx_count) = ok tx_count

  abbrev pub first_count : List String → Outcome ℕ
  first_count [] = err no_tx_count
  first_count (count ∷ _) = parsed_count (n.parse_count count)

  unfoldable pub get_tx_count : Exec Chain ℕ
  get_tx_count = do counts ← n.tx_counts; lift (first_count counts)

  unfoldable pub get_zeropool_txns : ℕ → ℕ → Exec Chain (List IndexerTx)
  get_zeropool_txns page per_page = do
    txns ← n.txns_page page per_page
    pure (relevant_txs n.account txns)

  unfoldable pub fetch_txs : List IndexerTx → Exec Chain (List TxCalldata)
  fetch_txs [] = pure []
  fetch_txs (pair ∷ pairs) = do
    tx ← n.archived_tx pair.hash pair.sender
    rest ← fetch_txs pairs
    pure (transact_calls tx.hash tx.actions ++ rest)

  abbrev pub page_size : ℕ
  page_size = 25

  -- `count` pages from `page` on.
  unfoldable pub fetch_pages : ℕ → ℕ → Exec Chain (List TxCalldata)
  fetch_pages zero page = pure []
  fetch_pages (suc count) page = do
    pairs ← get_zeropool_txns page page_size
    txs ← fetch_txs pairs
    rest ← fetch_pages count (page + 1)
    pure (txs ++ rest)

  unfoldable pub near_fetch : Exec Chain (List TxCalldata)
  near_fetch = do
    tx_count ← get_tx_count
    if tx_count == 0 then pure [] else fetch_pages (tx_count / page_size + 1) 1
