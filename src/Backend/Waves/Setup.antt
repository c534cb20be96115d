-- ===== src/Backend/Waves/Setup.antt =====
-- `WavesBackend::new` and the codecs of src/backend/waves.rs.
use zeropool_relayer_rs.Prelude.{ℕ, Option, List, String}
use zeropool_relayer_rs.Exec.{Outcome, ok}
use zeropool_relayer_rs.Exec.Results.{◌>>=◌, ◌>>◌}
use zeropool_relayer_rs.Crates.{Crates}
use zeropool_relayer_rs.Tx.{TxData}
use zeropool_relayer_rs.Config.{WavesConfig}
use zeropool_relayer_rs.Backend.Mock.{or_invalid}
use zeropool_relayer_rs.Backend.Waves.{chain_profile}

-- The codec of `zeropool_tx::waves`, `bs58`, the keys and addresses of the Waves crates, and what the
-- node of a profile answers at the start.
pub record WavesCodec (c : Crates) (P : Type 0) : Type 1 where
  pub PrivateKey : Type 0
  pub Address : Type 0
  pub from_seed : String → ℕ → Option PrivateKey
  pub from_string : String → Option Address
  pub get_height : String → Outcome ℕ
  pub get_balance : String → Address → Outcome ℕ
  pub read : List ℕ → Outcome (TxData c P)
  pub bs58_decode : String → Option (List ℕ)
  pub bs58_encode : List ℕ → String

module _ (c : Crates) {P : Type 0} (k : WavesCodec c P) where
  -- `WavesBackend::new`: the private key, the pool's address and the profile.
  unfoldable pub waves_new : WavesConfig → Outcome (k.PrivateKey × k.Address × String)
  waves_new config = do
    profile ← chain_profile config.profile
    private_key ← or_invalid (k.from_seed config.seed 0)
    address ← or_invalid (k.from_string config.pool_address)
    k.get_height profile
    k.get_balance profile address
    ok (private_key, address, profile)

  abbrev pub waves_parse_calldata : List ℕ → Outcome (TxData c P)
  waves_parse_calldata calldata = k.read calldata

  abbrev pub waves_parse_hash : String → Outcome (List ℕ)
  waves_parse_hash tx_hash = or_invalid (k.bs58_decode tx_hash)

  abbrev pub waves_format_hash : List ℕ → String
  waves_format_hash tx_hash = k.bs58_encode tx_hash
