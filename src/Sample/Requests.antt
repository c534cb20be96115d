-- ===== src/Sample/Requests.antt =====
-- Requests to the sample relayer (src/json_api.rs): deposits, where a proof is a number and 1 is valid.
use zeropool_relayer_rs.Prelude.{
  ℕ, refl, ◌≡◌, false, Option, none, some, List, [], ◌∷◌, length, ltb, ◌==◌, if◌then◌else◌,
}
use zeropool_relayer_rs.Exec.{ok}
use zeropool_relayer_rs.Sample.{sample}
use zeropool_relayer_rs.Tx.{deposit, ParsedTxData}
use zeropool_relayer_rs.Backend.{extract_ciphertext_from_memo}
use zeropool_relayer_rs.Api.Handlers.{parse_request}
use zeropool_relayer_rs.Api.{Validation, TxDataRequest}

abbrev pub read_length : List ℕ → Option ℕ
read_length memo = if ltb (length memo) 8 then none else some (length memo)

abbrev pub long_enough :
    (memo : List ℕ) → ltb (length memo) 8 ≡ false → (fee : ℕ) × (read_length memo ≡ some fee)
long_enough memo h = (length memo, rw h)

abbrev pub sample_rules : Validation ℕ ℕ
sample_rules = record {
  verify = λ p inputs. p == 1;
  parse_delta = λ d. record { token_amount = d; energy_amount = 0; transfer_index = 0 };
  read_u64 = read_length;
  read_u64-short = λ memo h. rw h;
  read_u64-long = long_enough;
}

abbrev pub with_proof : ℕ → TxDataRequest ℕ ℕ
with_proof p = record {
  tx_type = deposit;
  proof = record { proof = p; inputs = 1 ∷ 2 ∷ 22 ∷ 70 ∷ [] };
  memo = 0 ∷ 0 ∷ 0 ∷ 0 ∷ 0 ∷ 0 ∷ 0 ∷ 9 ∷ 5 ∷ [];
  extra_data = [];
}

abbrev pub parsed_tx : ℕ → ParsedTxData sample ℕ
parsed_tx p = record {
  tx_type = deposit;
  proof = p;
  delta = 70;
  out_commit = 22;
  nullifier = 2;
  memo = 0 ∷ 0 ∷ 0 ∷ 0 ∷ 0 ∷ 0 ∷ 0 ∷ 9 ∷ 5 ∷ [];
  extra_data = [];
}

pub with_proof_parsed : (p : ℕ) → parse_request (with_proof p) ≡ ok (parsed_tx p)
unfolding parse_request
with_proof_parsed p = refl

pub five_left : extract_ciphertext_from_memo (with_proof 1).memo deposit ≡ ok (5 ∷ [])
unfolding extract_ciphertext_from_memo
five_left = refl
