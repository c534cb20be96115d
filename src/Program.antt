-- ===== src/Program.antt =====
-- `main` of src/main.rs: the settings, all of `AppState::init` of src/state.rs, and the state in which the
-- worker and the server start.
pub mod Ready
pub mod Serve
pub mod Restart
mod Tests
use zeropool_relayer_rs.Prelude.{ℕ, Bool, true, false, String, if◌then◌else◌}
use zeropool_relayer_rs.Exec.{Outcome, ok, panic, settle}
use zeropool_relayer_rs.Exec.Disk.{Disk}
use zeropool_relayer_rs.Exec.Results.{◌>>=◌, ◌>>◌}
use zeropool_relayer_rs.Crates.{Crates}
use zeropool_relayer_rs.Redis.{Redis}
use zeropool_relayer_rs.Merkle.Tree.{MerkleTree}
use zeropool_relayer_rs.JobQueue.{Codec}
use zeropool_relayer_rs.Config
use zeropool_relayer_rs.Config.{Config, Environment}
use zeropool_relayer_rs.Backend.{BlockchainBackend}
use zeropool_relayer_rs.Backend.Choice.{ChainCrates, Chosen, new_backend}
use zeropool_relayer_rs.Worker.{Payload}
use zeropool_relayer_rs.Worker.Process.{Relayer}
use zeropool_relayer_rs.State.Init
use zeropool_relayer_rs.State.Init.{Files, Boot, Started}

module _ (c : Crates) (r : Redis) {P : Type 0} (b : Codec (Payload c P)) where
  -- The relayer that the worker and the handlers share.
  abbrev pub relayer_of :
      (bk : BlockchainBackend c P) → Started c r b bk → Boot c r b bk → Relayer c r b bk
  relayer_of bk started boot = record {
    app = boot.app;
    chain = boot.chain;
    pool_index = started.pool_index;
    pool_root = started.pool_root;
  }

  -- `methods` gives the trait object of a backend, and `keys` the keys of the build.
  module _ (k : ChainCrates c P) (methods : Chosen c k → BlockchainBackend c P) {K : Type 0}
      (keys : Outcome K) where
    -- What the program meets: the environment, whether Redis has a client for an address, whether a
    -- port can be bound, and the files and chains.
    pub record Machine : Type 0 where
      pub environment : Environment
      pub client_open : String → Outcome (Unit {0})
      pub can_bind : ℕ → Bool
      pub files : (chosen : Chosen c k) → Files c r b (methods chosen)

    -- `AppState` in use, with the backend that was chosen.
    pub record Serving : Type 0 where
      pub config : Config
      pub fee : ℕ
      pub chosen : Chosen c k
      pub tree : MerkleTree c
      pub params : K
      pub relayer : Relayer c r b (methods chosen)

    -- `init` from the opening of the files on, then the keys.
    unfoldable pub opened_state : Machine → Config → Chosen c k → Outcome Serving
    opened_state machine config chosen =
        let (result, boot) = Init.init c r b (methods chosen) (machine.files chosen) in
        result >>= λ started. keys >>= λ params. ok (record {
          config = config;
          fee = config.fee;
          chosen = chosen;
          tree = started.tree;
          params = params;
          relayer = relayer_of (methods chosen) started boot;
        })

    unfoldable pub init : Machine → Config → Outcome Serving
    init machine config = do
      chosen ← new_backend c k config.backend
      machine.client_open config.redis_url
      opened_state machine config chosen

    -- Up to the start of the worker and the server.
    unfoldable pub main : Machine → Outcome Serving
    main machine = do
      config ← settle (Config.init machine.environment)
      serving ← settle (init machine config)
      if machine.can_bind config.port then ok serving else panic
