-- ===== src/Config.antt =====
-- src/config.rs: which backend is chosen, and the settings.
use text.Mathlib.Text.{◌==◌ as str_eq}
use zeropool_relayer_rs.Prelude.{ℕ, Bool, false, Option, none, some, String, if◌then◌else◌}
use zeropool_relayer_rs.Exec.{Outcome, ok, err, panic, invalid_data, variable_not_set}
use zeropool_relayer_rs.Exec.Results.{◌>>=◌}

pub record EvmConfig : Type 0 where
  pub rpc_url : String
  pub pool_address : String
  pub token_address : String
  pub sk : String

pub record NearConfig : Type 0 where
  pub network : String
  pub rpc_url : String
  pub archive_rpc_url : String
  pub sk : String
  pub pool_address : String
  pub relayer_account_id : String
  pub token_id : String

pub record WavesConfig : Type 0 where
  pub seed : String
  pub profile : String
  pub pool_address : String

pub data BackendKind : Type 0 where
  mock : BackendKind
  evm : EvmConfig → BackendKind
  near : NearConfig → BackendKind
  waves : WavesConfig → BackendKind

unfoldable pub token_id : BackendKind → String
token_id mock = "mock"
token_id (evm config) = config.token_address
token_id (near config) = config.token_id
token_id (waves _) = ""

pub record Config : Type 0 where
  pub port : ℕ
  pub backend : BackendKind
  pub redis_url : String
  pub fee : ℕ
  pub mock_prover : Bool

-- The environment: `std::env::var`, the `parse` of `u16`, `u64` and `bool`, and
-- `envy::prefixed(..).from_env` at the three types.
pub record Environment : Type 0 where
  pub var : String → Option String
  pub parse_u16 : String → Option ℕ
  pub parse_u64 : String → Option ℕ
  pub parse_bool : String → Option Bool
  pub evm_config : String → Option EvmConfig
  pub near_config : String → Option NearConfig
  pub waves_config : String → Option WavesConfig

module _ (e : Environment) where
  -- `env::var(..)?`.
  abbrev pub required : String → Outcome String
  required name = elim (e.var name) [ none ↦ err variable_not_set | some text ↦ ok text ]

  abbrev pub parsed : {A : Type 0} → (String → Option A) → Outcome String → Outcome A
  parsed parse (err x) = err x
  parsed parse panic = panic
  parsed parse (ok text) = elim (parse text) [ none ↦ err invalid_data | some a ↦ ok a ]

  abbrev pub configured : {A : Type 0} → (A → BackendKind) → Option A → Outcome BackendKind
  configured kind none = err invalid_data
  configured kind (some config) = ok (kind config)

  -- A build with all the backends. An unknown name panics.
  unfoldable pub backend_of : String → Outcome BackendKind
  backend_of name =
      if str_eq name "mock"
      then ok mock
      else if str_eq name "evm"
      then configured evm (e.evm_config "EVM_")
      else if str_eq name "near"
      then configured near (e.near_config "NEAR_")
      else if str_eq name "waves"
      then configured waves (e.waves_config "WAVES_")
      else panic

  -- Without the variable the prover is not mocked; with one that does not parse `init` fails.
  abbrev pub mock_prover_of : Option String → Outcome Bool
  mock_prover_of none = ok false
  mock_prover_of (some text) = elim (e.parse_bool text) [
    | none ↦ err invalid_data
    | some flag ↦ ok flag
  ]

  unfoldable pub init : Outcome Config
  unfolding backend_of
  init = do
    name ← required "BACKEND"
    backend ← backend_of name
    port ← parsed e.parse_u16 (required "PORT")
    redis_url ← required "REDIS_URL"
    fee ← parsed e.parse_u64 (required "FEE")
    mock_prover ← mock_prover_of (e.var "MOCK_PROVER")
    ok (record {
      port = port;
      backend = backend;
      redis_url = redis_url;
      fee = fee;
      mock_prover = mock_prover;
    })
