-- ===== src/Backend/Near/Node.antt =====
-- src/backend/near.rs: sending a transaction and waiting for its status, the views of the contract, the
-- codecs and the signer.
use zeropool_relayer_rs.Prelude.{
  ℕ, zero, suc, ◌+◌, Bool, true, false, Option, none, some, List, String, if◌then◌else◌,
}
use zeropool_relayer_rs.Exec.{
  Exec, Outcome, ok, err, panic, invalid_data, unexpected_response, tx_failed, pure, lift, ◌>>=◌,
}
use zeropool_relayer_rs.Crates.{Crates}
use zeropool_relayer_rs.Tx.{TxData}
use zeropool_relayer_rs.Config.{NearConfig}
use zeropool_relayer_rs.Backend.Mock.{or_invalid}
use zeropool_relayer_rs.Backend.Near.{
  NearRpc, FinalExecutionStatus, failure, success_value, unfinished,
}

module _ (c : Crates) {P : Type 0} (n : NearRpc c P) where
  open n use {Chain}

  -- One round of the loop after the broadcast: `true` ends it. A failed request counts as no answer.
  abbrev pub final : Outcome FinalExecutionStatus → Outcome Bool
  final (ok failure) = err tx_failed
  final (ok success_value) = ok true
  final (ok unfinished) = ok false
  final (err _) = ok false
  final panic = panic

  abbrev pub check_status : List ℕ → Exec Chain Bool
  check_status tx_hash w = let (status, w') = n.tx_status tx_hash w in (final status, w')

  -- The loop for as many rounds; `false` where it has not ended.
  unfoldable pub status_rounds : List ℕ → ℕ → Exec Chain Bool
  status_rounds tx_hash zero = pure false
  status_rounds tx_hash (suc rounds) = do
    done ← check_status tx_hash
    if done then pure true else (λ w. status_rounds tx_hash rounds w)

  abbrev pub expected : {A : Type 0} → Option A → Outcome A
  expected none = err unexpected_response
  expected (some a) = ok a

  unfoldable pub near_send_tx : ℕ → TxData c P → Exec Chain (Option (List ℕ))
  near_send_tx rounds tx = do
    answer ← n.access_key_nonce
    current_nonce ← lift (expected answer)
    args ← lift (n.write tx)
    tx_hash ← n.broadcast_transact (current_nonce + 1) args
    done ← status_rounds tx_hash rounds
    pure (if done then some tx_hash else none)

  unfoldable pub near_pool_index : Exec Chain ℕ
  near_pool_index = do
    answer ← n.view_pool_index
    result ← lift (expected answer)
    lift (n.u64_from_le_bytes result)

  unfoldable pub near_merkle_root : ℕ → Exec Chain (Option ℕ)
  near_merkle_root index = do
    answer ← n.view_merkle_root index
    result ← lift (expected answer)
    lift (elim (n.root_from_slice result) [ none ↦ err invalid_data | some root ↦ ok root ])

-- The codec of `zeropool_tx::near`, `bs58`, and the keys of the NEAR crates.
pub record NearCodec (c : Crates) (P : Type 0) : Type 1 where
  pub Signer : Type 0
  pub secret_key : String → String → Option Signer
  pub read : List ℕ → Outcome (TxData c P)
  pub bs58_decode : String → Option (List ℕ)
  pub bs58_encode : List ℕ → String

module _ (c : Crates) {P : Type 0} (k : NearCodec c P) where
  -- `NearBackend::new`: the signer of the relayer's account.
  unfoldable pub near_signer : NearConfig → Outcome k.Signer
  near_signer config = or_invalid (k.secret_key config.relayer_account_id config.sk)

  abbrev pub near_parse_calldata : List ℕ → Outcome (TxData c P)
  near_parse_calldata calldata = k.read calldata

  abbrev pub near_parse_hash : String → Outcome (List ℕ)
  near_parse_hash tx_hash = or_invalid (k.bs58_decode tx_hash)

  abbrev pub near_format_hash : List ℕ → String
  near_format_hash tx_hash = k.bs58_encode tx_hash
