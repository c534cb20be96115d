-- ===== src/Tx.antt =====
-- The data of a transaction: src/tx.rs, `TxCalldata` of src/backend/mod.rs, and the types of the crate
-- `zeropool_tx` with the fields that src/tx_worker.rs gives them.
use zeropool_relayer_rs.Prelude.{ℕ, List, String}
use zeropool_relayer_rs.Crates.{Crates}

-- `zeropool_tx::TxType`.
pub data TxType : Type 0 where
  deposit transfer withdraw : TxType

pub data TxValidationError : Type 0 where
  empty_memo invalid_transfer_proof insufficient_balance : TxValidationError
  fee_too_low invalid_values invalid_tx_index : TxValidationError

pub record TxCalldata : Type 0 where
  pub hash : List ℕ
  pub calldata : List ℕ

module _ (c : Crates) (P : Type 0) where
  open c use {Hash}

  -- The proof of the transfer is a type of the prover.
  pub record ParsedTxData : Type 0 where
    pub tx_type : TxType
    pub proof : P
    pub delta : Hash
    pub out_commit : Hash
    pub nullifier : Hash
    pub memo : List ℕ
    pub extra_data : List ℕ

  -- `zeropool_tx::TxData<Fr, Proof>`.
  pub record TxData : Type 0 where
    pub tx_type : TxType
    pub delta : Hash
    pub token_id : String
    pub out_commit : Hash
    pub nullifier : Hash
    pub proof : P
    pub root_after : Hash
    pub tree_proof : P
    pub memo : List ℕ
    pub extra_data : List ℕ
