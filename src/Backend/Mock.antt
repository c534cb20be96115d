-- ===== src/Backend/Mock.antt =====
-- The backends that are little more than calls of other crates: src/backend/mock.rs, an in-memory pool;
-- src/backend/evm/mod.rs; and src/backend/substrate.rs, whose methods are not written yet.
use zeropool_relayer_rs.Prelude.{ℕ, ◌+◌, ◌%◌, ◌^◌, Option, none, some, List, [], String}
use zeropool_relayer_rs.Exec.{Exec, Outcome, ok, err, panic, invalid_data, pure, lift, ◌>>=◌}
use zeropool_relayer_rs.Crates.{Crates}
use zeropool_relayer_rs.Tx.{TxData}
use zeropool_relayer_rs.Backend.{BlockchainBackend, extract_ciphertext_from_memo}

abbrev pub or_invalid : {A : Type 0} → Option A → Outcome A
or_invalid none = err invalid_data
or_invalid (some a) = ok a

-- `to_be_bytes`, `bincode::deserialize` and `hex`.
pub record MockTools (c : Crates) (P : Type 0) : Type 0 where
  pub to_be_bytes : ℕ → List ℕ
  pub deserialize : List ℕ → Option (TxData c P)
  pub hex_decode : String → Option (List ℕ)
  pub hex_encode : List ℕ → String

-- `todo!()` panics.
abbrev pub todo : {W A : Type 0} → Exec W A
todo w = (panic, w)

module _ (c : Crates) (P : Type 0) where
  -- The state is the index of the pool.
  abbrev pub mock_send_tx : MockTools c P → TxData c P → Exec ℕ (List ℕ)
  mock_send_tx m _ pool_index =
      let after = (pool_index + 128) % 2 ^ 64 in (ok (m.to_be_bytes after), after)

  abbrev pub mock_backend : MockTools c P → BlockchainBackend c P
  mock_backend m = record {
    World = ℕ;
    name = "mock";
    fetch_latest_transactions = pure [];
    validate_tx = λ _. pure [];
    send_tx = mock_send_tx m;
    get_pool_index = λ pool_index. (ok pool_index, pool_index);
    get_merkle_root = λ index. pure (some index);
    parse_calldata = λ calldata. or_invalid (m.deserialize calldata);
    extract_ciphertext = extract_ciphertext_from_memo;
    parse_hash = λ hash. or_invalid (m.hex_decode hash);
    format_hash = m.hex_encode;
  }

  -- The contract and the node behind `web3`, and the codec of `zeropool_tx::evm`.
  pub record EvmRpc : Type 1 where
    pub Chain : Type 0
    pub write : TxData c P → Outcome (List ℕ)
    pub read : List ℕ → Outcome (TxData c P)
    pub sign_transaction : List ℕ → Exec Chain (List ℕ)
    pub send_raw_transaction : List ℕ → Exec Chain (List ℕ)
    pub query_pool_index : Exec Chain ℕ
    pub as_u64 : ℕ → Outcome ℕ
    pub query_roots : ℕ → Exec Chain ℕ
    pub hex_decode : String → Option (List ℕ)
    pub hex_encode : List ℕ → String

  abbrev pub evm_send_tx : (e : EvmRpc) → TxData c P → Exec e.Chain (List ℕ)
  evm_send_tx e tx = do
    calldata ← lift (e.write tx)
    signed ← e.sign_transaction calldata
    e.send_raw_transaction signed

  abbrev pub evm_backend : EvmRpc → BlockchainBackend c P
  evm_backend e = record {
    World = e.Chain;
    name = "evm";
    fetch_latest_transactions = pure [];
    validate_tx = λ _. pure [];
    send_tx = evm_send_tx e;
    get_pool_index = (do pool_index ← e.query_pool_index; lift (e.as_u64 pool_index));
    get_merkle_root = λ index. (do root ← e.query_roots index; pure (some root));
    parse_calldata = e.read;
    extract_ciphertext = extract_ciphertext_from_memo;
    parse_hash = λ hash. or_invalid (e.hex_decode hash);
    format_hash = e.hex_encode;
  }

  abbrev pub substrate_backend :
      (String → Option (List ℕ)) → (List ℕ → String) → BlockchainBackend c P
  substrate_backend bs58_decode bs58_encode = record {
    World = Unit {0};
    name = "substrate";
    fetch_latest_transactions = todo;
    validate_tx = λ _. pure [];
    send_tx = λ _. todo;
    get_pool_index = todo;
    get_merkle_root = λ _. todo;
    parse_calldata = λ _. panic;
    extract_ciphertext = λ _ _. panic;
    parse_hash = λ hash. or_invalid (bs58_decode hash);
    format_hash = bs58_encode;
  }
