-- ===== src/Backend.antt =====
-- `BlockchainBackend` of src/backend/mod.rs: the interface between the relayer and a chain.
pub mod Mock
pub mod MockPool
pub mod Near
pub mod Waves
pub mod Choice
mod Tests
use zeropool_relayer_rs.Prelude.{ℕ, Option, List, String, drop, length, leb, if◌then◌else◌}
use zeropool_relayer_rs.Exec.{Exec, Outcome, ok, panic}
use zeropool_relayer_rs.Crates.{Crates}
use zeropool_relayer_rs.Tx.{
  TxType, deposit, transfer, withdraw, TxValidationError, TxCalldata, ParsedTxData, TxData,
}

abbrev pub memo_offset : TxType → ℕ
memo_offset deposit = 8
memo_offset transfer = 8
memo_offset withdraw = 36

-- `&memo[offset..]`, which panics where the memo is shorter than the offset.
abbrev pub memo_from : ℕ → List ℕ → Outcome (List ℕ)
memo_from offset memo = if leb offset (length memo) then ok (drop offset memo) else panic

-- The default method of the trait.
unfoldable pub extract_ciphertext_from_memo : List ℕ → TxType → Outcome (List ℕ)
extract_ciphertext_from_memo memo tx_type = memo_from (memo_offset tx_type) memo

-- The trait. `World` is the state of the chain and of the backend; a `U256` is a number.
pub record BlockchainBackend (c : Crates) (P : Type 0) : Type 1 where
  pub World : Type 0
  pub name : String
  pub fetch_latest_transactions : Exec World (List TxCalldata)
  pub validate_tx : ParsedTxData c P → Exec World (List TxValidationError)
  pub send_tx : TxData c P → Exec World (List ℕ)
  pub get_pool_index : Exec World ℕ
  pub get_merkle_root : ℕ → Exec World (Option ℕ)
  pub parse_calldata : List ℕ → Outcome (TxData c P)
  pub extract_ciphertext : List ℕ → TxType → Outcome (List ℕ)
  pub parse_hash : String → Outcome (List ℕ)
  pub format_hash : List ℕ → String
