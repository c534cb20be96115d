-- ===== src/Sample/Relayer.antt =====
-- A relayer over the sample crates: an empty tree and storage, a server without jobs, and a mock pool.
use zeropool_relayer_rs.Prelude.{ℕ, ◌≡◌, ◌≤◌, refl, none, true, List, [], ◌∷◌, arith}
use zeropool_relayer_rs.Exec.{ok}
use zeropool_relayer_rs.Sample.{sample, sample_redis, Memory}
use zeropool_relayer_rs.Sample.Payloads.{payload_codec}
use zeropool_relayer_rs.Merkle.Tree.{MerkleTree, tree_height}
use zeropool_relayer_rs.Merkle.View.{HasDefaults}
use zeropool_relayer_rs.Merkle.Open.{opened, initial, opened-HasDefaults, open_tree-Represents}
use zeropool_relayer_rs.TxStorage.{fresh}
use zeropool_relayer_rs.TxStorage.Entries.{fresh-IsSound}
use zeropool_relayer_rs.JobQueue.Queue.{Queue, Shows}
use zeropool_relayer_rs.Config.{Config, mock}
use zeropool_relayer_rs.Worker.{Payload}
use zeropool_relayer_rs.Worker.Prepare.{InStep, Prepared, prepare_job-Prepared}
use zeropool_relayer_rs.Worker.Process.{Tools}
use zeropool_relayer_rs.Tx.{ParsedTxData, TxType, deposit}
use zeropool_relayer_rs.Backend.{BlockchainBackend, extract_ciphertext_from_memo}
use zeropool_relayer_rs.Backend.Mock.{MockTools, mock_backend}

abbrev pub tree : MerkleTree sample
tree = opened sample

abbrev pub defaults : HasDefaults sample tree
defaults = opened-HasDefaults sample

abbrev pub small : tree_height sample ≤ 62
small = omega arith

abbrev pub server : Memory
server = record { last = 0; queue = []; store = λ _. none }

abbrev pub no_jobs : Queue (Payload sample ℕ)
no_jobs = record { counter = 0; waiting = []; status = λ _. none; mapping = λ _. none }

abbrev pub no_jobs_Shows : Shows sample_redis payload_codec server no_jobs
no_jobs_Shows = record { counter = refl; waiting = refl; status = λ i. refl; mapping = λ k. refl }

abbrev pub with_memo : TxType → List ℕ → ℕ → ParsedTxData sample ℕ
with_memo tx_type memo commit = record {
  tx_type = tx_type;
  proof = 0;
  delta = 5;
  out_commit = commit;
  nullifier = 6;
  memo = memo;
  extra_data = [];
}

abbrev pub tx : ℕ → ParsedTxData sample ℕ
tx commit = with_memo deposit (0 ∷ 0 ∷ 0 ∷ 0 ∷ 0 ∷ 0 ∷ 0 ∷ 1 ∷ 9 ∷ []) commit

abbrev pub start : InStep sample sample_redis payload_codec (initial sample) (fresh sample) []
start = record {
  represents = (open_tree-Represents sample).2;
  remembers = (open_tree-Represents sample).3;
  transactions = fresh-IsSound sample;
  next = refl;
}

pub ciphertext : extract_ciphertext_from_memo (tx 11).memo deposit ≡ ok (9 ∷ [])
unfolding extract_ciphertext_from_memo
ciphertext = refl

-- After one deposit.
abbrev pub one :
    Prepared sample sample_redis payload_codec tree defaults
      (initial sample)
      (fresh sample)
      server
      []
      start
      extract_ciphertext_from_memo
      (tx 11)
      (9 ∷ [])
one =
    prepare_job-Prepared sample sample_redis payload_codec tree defaults (initial sample)
      (fresh sample) server [] start extract_ciphertext_from_memo (tx 11) (9 ∷ []) ciphertext
      (omega arith) small (omega arith)

abbrev mock_tools : MockTools sample ℕ
mock_tools = record {
  to_be_bytes = λ n. n ∷ [];
  deserialize = λ _. none;
  hex_decode = λ _. none;
  hex_encode = λ _. "";
}

abbrev pub pool : BlockchainBackend sample ℕ
pool = mock_backend sample ℕ mock_tools

abbrev pub tools : Tools sample ℕ
tools = record { mock_proof = 0; prove_tree = λ _ _. ok 1; to_string = λ _. "a"; to_u256 = λ h. h }

abbrev pub config : Config
config = record { port = 8000; backend = mock; redis_url = ""; fee = 5; mock_prover = true }
