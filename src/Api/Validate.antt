-- ===== src/Api/Validate.antt =====
-- `validate_tx` of src/json_api.rs.
use zeropool_relayer_rs.Prelude.{
  ℕ, ◌^◌, ◌≤◌, ◌<◌, ◌≡◌, ◌≢◌, ◌⊎◌, ◌↔◌, refl, inl, inr, Bool, true, false, not, List, [], ◌∷◌, ◌++◌,
  some, none, get_elem?, length, ltb, Bool-cases, arith,
}
use zeropool_relayer_rs.Exec.{ok, panic}
use zeropool_relayer_rs.Api.{Validation, TxDataRequest, push_if, has_invalid_values, validate_tx}
use zeropool_relayer_rs.Tx.{
  TxType, deposit, transfer, withdraw, TxValidationError, invalid_values, invalid_tx_index,
  fee_too_low, invalid_transfer_proof,
}

-- The amounts that a transaction of each type may have; an amount from 2 ^ 255 on is negative.
pub HasValidAmounts : TxType → ℕ → ℕ → Type 0
HasValidAmounts deposit token energy = (token < 2 ^ 255) × (energy ≡ 0)
HasValidAmounts transfer token energy = (token ≡ 0) × (energy ≡ 0)
HasValidAmounts withdraw token energy =
    ((token ≡ 0) ⊎ (2 ^ 255 ≤ token)) × ((energy ≡ 0) ⊎ (2 ^ 255 ≤ energy))

amounts_iff :
    (tx_type : TxType) (token energy : ℕ)
    → (has_invalid_values tx_type token energy ≡ false) ↔ HasValidAmounts tx_type token energy
unfolding HasValidAmounts has_invalid_values
amounts_iff deposit token energy = ground arith
amounts_iff transfer token energy = ground arith
amounts_iff withdraw token energy = ground arith

append-ne : (errors : List TxValidationError) (e : TxValidationError) → errors ++ e ∷ [] ≢ []
append-ne [] e = λ h. absurd (cc h)
append-ne (x ∷ errors) e = λ h. absurd (cc h)

push_if_iff :
    (b : Bool) (e : TxValidationError) (errors : List TxValidationError)
    → (push_if b e errors ≡ []) ↔ ((b ≡ false) × (errors ≡ []))
push_if_iff true e errors = (λ h. absurd (append-ne errors e h), λ h. absurd (cc h.0))
push_if_iff false e errors = (λ h. (refl, h), λ h. h.1)

-- The errors of the four checks, in the order of the code.
abbrev errors_of : Bool → Bool → Bool → Bool → List TxValidationError
errors_of proof fee index values = push_if values invalid_values (
    push_if index invalid_tx_index
      (push_if fee fee_too_low (push_if proof invalid_transfer_proof [])))

all_clear :
    (proof fee index values : Bool)
    → (errors_of proof fee index values ≡ [])
      ↔ ((proof ≡ false) × (fee ≡ false) × (index ≡ false) × (values ≡ false))
all_clear proof fee index values =
    let e1 = push_if proof invalid_transfer_proof [] in
    let e2 = push_if fee fee_too_low e1 in
    let e3 = push_if index invalid_tx_index e2 in
    (
      λ h.
          let (v, h3) = (push_if_iff values invalid_values e3).0 h in
          let (i, h2) = (push_if_iff index invalid_tx_index e2).0 h3 in
          let (f, h1) = (push_if_iff fee fee_too_low e1).0 h2 in
          let (p, h0) = (push_if_iff proof invalid_transfer_proof []).0 h1 in (p, f, i, v),
      λ h. (push_if_iff values invalid_values e3).1 (
        h.3,
        (push_if_iff index invalid_tx_index e2).1 (
          h.2,
          (push_if_iff fee fee_too_low e1).1
              (h.1, (push_if_iff proof invalid_transfer_proof []).1 (h.0, refl)),
        ),
      ),
    )

not_iff : (b : Bool) → (not b ≡ false) ↔ (b ≡ true)
not_iff b = ground arith

module _ {Num Proof : Type 0} (v : Validation Num Proof) (min_fee pool_index : ℕ)
    (tx : TxDataRequest Num Proof) where
  open v use {parse_delta}

  -- What a transaction without errors satisfies.
  unfoldable pub IsValid : ℕ → Num → Type 0
  IsValid fee delta =
      (v.verify tx.proof.proof tx.proof.inputs ≡ true)
      × (min_fee ≤ fee)
      × ((parse_delta delta).transfer_index ≤ pool_index)
      × HasValidAmounts tx.tx_type (parse_delta delta).token_amount
          (parse_delta delta).energy_amount

  -- `validate_tx` panics on a memo of less than eight bytes. It panics too where the inputs have
  -- no entry 3. Otherwise it ends with a list of errors, and the list is empty if and only if the
  -- proof verifies, the fee in the memo is at least the fee asked for, the transfer index is at
  -- most the pool index, and the amounts are valid: of a deposit, a token amount that is not
  -- negative and no energy; of a transfer, neither; of a withdrawal, neither amount positive.
  pub validate_tx_lem :
      (length tx.memo < 8 → validate_tx v min_fee pool_index tx ≡ panic)
      × (get_elem? tx.proof.inputs 3 ≡ none → validate_tx v min_fee pool_index tx ≡ panic)
      × ((delta : Num)
          → 8 ≤ length tx.memo
          → get_elem? tx.proof.inputs 3 ≡ some delta
          → (fee : ℕ) × (errors : List TxValidationError) × (v.read_u64 tx.memo ≡ some fee)
            × (validate_tx v min_fee pool_index tx ≡ ok errors)
            × ((errors ≡ []) ↔ IsValid fee delta))
  unfolding validate_tx IsValid
  validate_tx_lem = (
    λ short. rw (v.read_u64-short tx.memo (ground arith)) refl,
    λ missing. elim (Bool-cases (ltb (length tx.memo) 8)) [
      | inl short ↦ rw (v.read_u64-short tx.memo short) refl
      | inr long ↦ rw ((v.read_u64-long tx.memo long).1, missing) refl
    ],
    λ delta long input.
        let reads : ltb (length tx.memo) 8 ≡ false = ground arith in
        let (fee, e) = v.read_u64-long tx.memo reads in
        let d = parse_delta delta in
        let wrong = has_invalid_values tx.tx_type d.token_amount d.energy_amount in
        let verified = v.verify tx.proof.proof tx.proof.inputs in
        let late = ltb pool_index d.transfer_index in
        let low = ltb fee min_fee in
        let clear = all_clear (not verified) low late wrong in
        let amounts = amounts_iff tx.tx_type d.token_amount d.energy_amount in
        let proved = not_iff verified in
        (
          fee,
          errors_of (not verified) low late wrong,
          e,
          rw (e, input, reads) refl,
          (
            λ h.
                let (p, f, i, a) = clear.0 h in
                (proved.0 p, ground arith, ground arith, amounts.0 a),
            λ h. clear.1 (proved.1 h.0, ground (arith, h.1), ground (arith, h.2), amounts.1 h.3),
          ),
        ),
  )
