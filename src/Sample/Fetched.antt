-- ===== src/Sample/Fetched.antt =====
-- Two transactions as a sample pool gives them to `init` of src/state.rs.
use zeropool_relayer_rs.Prelude.{ℕ, refl, List, [], ◌∷◌}
use zeropool_relayer_rs.Exec.{Outcome, ok}
use zeropool_relayer_rs.Sample.{sample, sample_redis}
use zeropool_relayer_rs.Sample.Payloads.{payload_codec}
use zeropool_relayer_rs.Sample.Relayer.{tree, defaults, small, server}
use zeropool_relayer_rs.State.Sync.{Parses, none_left, one_more}
use zeropool_relayer_rs.Tx.{TxType, deposit, TxCalldata, TxData}

abbrev pub first_number : List ℕ → ℕ
first_number [] = 0
first_number (n ∷ _) = n

abbrev pub data_of : List ℕ → TxData sample ℕ
data_of calldata = record {
  tx_type = deposit;
  delta = 0;
  token_id = "";
  out_commit = first_number calldata;
  nullifier = 0;
  proof = 0;
  root_after = 0;
  tree_proof = 0;
  memo = calldata;
  extra_data = [];
}

abbrev pub parse : List ℕ → Outcome (TxData sample ℕ)
parse calldata = ok (data_of calldata)

abbrev pub whole_memo : List ℕ → TxType → Outcome (List ℕ)
whole_memo memo _ = ok memo

abbrev pub tx_of : ℕ → TxCalldata
tx_of n = record { hash = 1 ∷ []; calldata = n ∷ [] }

abbrev pub fetched_two : List TxCalldata
fetched_two = tx_of 11 ∷ tx_of 22 ∷ []

abbrev pub Commits : List TxCalldata → List ℕ → Type 0
Commits = Parses sample sample_redis payload_codec tree defaults small parse whole_memo server

abbrev pub fetched_two_Parses : Commits fetched_two (11 ∷ 22 ∷ [])
fetched_two_Parses =
    one_more (tx_of 11) (tx_of 22 ∷ []) (data_of (11 ∷ [])) (11 ∷ []) (22 ∷ []) refl refl
      (one_more (tx_of 22) [] (data_of (22 ∷ [])) (22 ∷ []) [] refl refl none_left)

abbrev pub one_left : Commits (tx_of 22 ∷ []) (22 ∷ [])
one_left = one_more (tx_of 22) [] (data_of (22 ∷ [])) (22 ∷ []) [] refl refl none_left
