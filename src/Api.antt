-- ===== src/Api.antt =====
-- src/json_api.rs: the validation of a transaction, and the answers that read the state.
pub mod Validate
pub mod Handlers
pub mod Create
pub mod Submit
pub mod Backlog
pub mod Traffic
pub mod Lists
mod Tests
use zeropool_relayer_rs.Prelude.{
  ℕ, ◌+◌, ◌*◌, ◌%◌, ◌^◌, Bool, true, false, not, ◌&&◌, ◌||◌, Option, none, some, List, [], ◌∷◌,
  ◌++◌, get_elem?, length, shr, ltb, ◌==◌, ◌≡◌, if◌then◌else◌,
}
use zeropool_relayer_rs.Exec.{Outcome, ok, err, panic, ◌>>=◌}
use zeropool_relayer_rs.Crates.{Crates}
use zeropool_relayer_rs.TxStorage.{TxAct, iter_range}
use zeropool_relayer_rs.Tx.{
  TxType, deposit, transfer, withdraw, TxValidationError, empty_memo, invalid_transfer_proof,
  fee_too_low, invalid_values, invalid_tx_index,
}

abbrev pub push_if : Bool → TxValidationError → List TxValidationError → List TxValidationError
push_if b e errors = if b then errors ++ e ∷ [] else errors

-- The parsed delta as `U256` numbers, without the pool id, which is not used.
pub record Delta : Type 0 where
  pub token_amount : ℕ
  pub energy_amount : ℕ
  pub transfer_index : ℕ

-- The bit 255 of a `U256`.
abbrev pub is_negative : ℕ → Bool
is_negative amount = not (shr amount 255 == 0)

abbrev pub is_positive : ℕ → Bool
is_positive amount = (shr amount 255 == 0) && not (amount == 0)

-- `is_token_amount_positive` is written as not negative and not zero.
unfoldable pub has_invalid_values : TxType → ℕ → ℕ → Bool
has_invalid_values deposit token_amount energy_amount =
    is_negative token_amount || not (energy_amount == 0)
has_invalid_values transfer token_amount energy_amount =
    not (token_amount == 0) || not (energy_amount == 0)
has_invalid_values withdraw token_amount energy_amount =
    (not (is_negative token_amount) && not (token_amount == 0)) || is_positive energy_amount

-- What the validation takes from other crates: the proof system, `parse_delta`, and the read of
-- eight bytes, which fails exactly on fewer.
pub record Validation (Num Proof : Type 0) : Type 0 where
  pub verify : Proof → List Num → Bool
  pub parse_delta : Num → Delta
  pub read_u64 : List ℕ → Option ℕ
  pub read_u64-short : (memo : List ℕ) → ltb (length memo) 8 ≡ true → read_u64 memo ≡ none
  pub read_u64-long :
      (memo : List ℕ) → ltb (length memo) 8 ≡ false → (fee : ℕ) × (read_u64 memo ≡ some fee)

pub record ProofWithInputs (Num Proof : Type 0) : Type 0 where
  pub proof : Proof
  pub inputs : List Num

pub record TxDataRequest (Num Proof : Type 0) : Type 0 where
  pub tx_type : TxType
  pub proof : ProofWithInputs Num Proof
  pub memo : List ℕ
  pub extra_data : List ℕ

module _ {Num Proof : Type 0} (v : Validation Num Proof) where
  open v use {verify, parse_delta, read_u64}

  -- The checks after the fee was read.
  abbrev pub validate_fee_and_delta :
      ℕ
      → ℕ
      → TxDataRequest Num Proof
      → List TxValidationError
      → ℕ
      → Option Num
      → Outcome (List TxValidationError)
  validate_fee_and_delta min_fee pool_index tx errors fee none = panic
  validate_fee_and_delta min_fee pool_index tx errors fee (some delta) =
      let d = parse_delta delta in
      ok (
        push_if (has_invalid_values tx.tx_type d.token_amount d.energy_amount) invalid_values (
          push_if (ltb pool_index d.transfer_index) invalid_tx_index
            (push_if (ltb fee min_fee) fee_too_low errors)))

  abbrev pub validate_read :
      ℕ
      → ℕ
      → TxDataRequest Num Proof
      → List TxValidationError
      → Option ℕ
      → Outcome (List TxValidationError)
  validate_read min_fee pool_index tx errors none = panic
  validate_read min_fee pool_index tx errors (some fee) =
      validate_fee_and_delta min_fee pool_index tx errors fee (get_elem? tx.proof.inputs 3)

  unfoldable pub validate_tx : ℕ → ℕ → TxDataRequest Num Proof → Outcome (List TxValidationError)
  validate_tx min_fee pool_index tx =
      validate_read min_fee pool_index tx
        (push_if (ltb (length tx.memo) 8) empty_memo
          (push_if (not (verify tx.proof.proof tx.proof.inputs)) invalid_transfer_proof []))
        (read_u64 tx.memo)
