-- ===== src/Backend/Choice.antt =====
-- Which backend the relayer gets: the first lines of `AppState::init` in src/state.rs, with
-- `EvmBackend::new` of src/backend/evm/mod.rs.
use zeropool_relayer_rs.Prelude.{Option, String}
use zeropool_relayer_rs.Exec.{Outcome, ok}
use zeropool_relayer_rs.Exec.Results.{◌>>=◌}
use zeropool_relayer_rs.Crates.{Crates}
use zeropool_relayer_rs.Config.{BackendKind, mock, evm, near, waves, EvmConfig, NearConfig}
use zeropool_relayer_rs.Backend.Mock.{or_invalid}
use zeropool_relayer_rs.Backend.Near.Node.{NearCodec, near_signer}
use zeropool_relayer_rs.Backend.Waves.Setup.{WavesCodec, waves_new}

-- The transport, the contracts at their addresses, with the interfaces that are built in, and the keys of
-- `web3` and `secp256k1`.
pub record EvmCrates : Type 1 where
  pub Transport : Type 0
  pub Address : Type 0
  pub Contract : Type 0
  pub SecretKey : Type 0
  pub transport : String → Outcome Transport
  pub parse_address : String → Option Address
  pub pool_contract : Transport → Address → Outcome Contract
  pub token_contract : Transport → Address → Outcome Contract
  pub parse_key : String → Option SecretKey

pub record EvmBackend (e : EvmCrates) : Type 0 where
  pub web3 : e.Transport
  pub contract : e.Contract
  pub token : e.Contract
  pub sk : e.SecretKey

-- `EvmBackend::new`.
unfoldable pub evm_new : (e : EvmCrates) → EvmConfig → Outcome (EvmBackend e)
evm_new e config = do
  transport ← e.transport config.rpc_url
  pool_address ← or_invalid (e.parse_address config.pool_address)
  contract ← e.pool_contract transport pool_address
  token_address ← or_invalid (e.parse_address config.token_address)
  token ← e.token_contract transport token_address
  sk ← or_invalid (e.parse_key config.sk)
  ok (record { web3 = transport; contract = contract; token = token; sk = sk })

-- The crates behind the backends.
pub record ChainCrates (c : Crates) (P : Type 0) : Type 1 where
  pub evm : EvmCrates
  pub near : NearCodec c P
  pub waves : WavesCodec c P

module _ (c : Crates) {P : Type 0} (k : ChainCrates c P) where
  -- A backend as it is made.
  pub data Chosen : Type 0 where
    chosen_mock : Chosen
    chosen_evm : EvmBackend k.evm → Chosen
    chosen_near : NearConfig → k.near.Signer → Chosen
    chosen_waves : k.waves.PrivateKey × k.waves.Address × String → Chosen

  -- The `match` on the kind.
  unfoldable pub new_backend : BackendKind → Outcome Chosen
  new_backend mock = ok chosen_mock
  new_backend (evm config) = evm_new k.evm config >>= λ made. ok (chosen_evm made)
  new_backend (near config) =
      near_signer c k.near config >>= λ signer. ok (chosen_near config signer)
  new_backend (waves config) = waves_new c k.waves config >>= λ made. ok (chosen_waves made)
