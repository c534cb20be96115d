-- ===== src/Program/Ready.antt =====
-- `main` of src/main.rs where nothing is missing, and a pool that answers at the start (src/state.rs).
use zeropool_relayer_rs.Prelude.{◌*◌, ◌≡◌, refl, true, some, List, length}
use zeropool_relayer_rs.Exec.{Outcome, ok}
use zeropool_relayer_rs.Crates.{Crates}
use zeropool_relayer_rs.Redis.{Redis}
use zeropool_relayer_rs.Merkle.Storage.{Tables}
use zeropool_relayer_rs.Merkle.Spec.{root_of}
use zeropool_relayer_rs.Merkle.Open.{opened}
use zeropool_relayer_rs.TxStorage.{TxTables, stride}
use zeropool_relayer_rs.JobQueue.{Codec}
use zeropool_relayer_rs.Config
use zeropool_relayer_rs.Config.{Config}
use zeropool_relayer_rs.Backend.{BlockchainBackend}
use zeropool_relayer_rs.Backend.Choice.{ChainCrates, Chosen, new_backend}
use zeropool_relayer_rs.Worker.{Payload}
use zeropool_relayer_rs.Worker.Process.{Tools}
use zeropool_relayer_rs.State.Init
use zeropool_relayer_rs.State.Init.{Files, Boot, Started}
use zeropool_relayer_rs.State.Boot.{started}
use zeropool_relayer_rs.Api.{Validation}
use zeropool_relayer_rs.Api.Backlog.Pipeline.{relayer_at}
use zeropool_relayer_rs.Program.{Machine, Serving, relayer_of, opened_state, init, main}

module _ (c : Crates) (r : Redis) {P : Type 0} (b : Codec (Payload c P)) (k : ChainCrates c P)
    (methods : Chosen c k → BlockchainBackend c P) {K : Type 0} (keys : Outcome K) where
  open r use {Server}

  -- The settings are given, a backend can be made of them, Redis has a client, the keys are read and the
  -- port is free.
  pub record IsReady (machine : Machine c r b k methods keys) (config : Config)
      (chosen : Chosen c k) (params : K) : Type 0 where
    pub settings : Config.init machine.environment ≡ ok config
    pub backend : new_backend c k config.backend ≡ ok chosen
    pub client : machine.client_open config.redis_url ≡ ok tt
    pub read : keys ≡ ok params
    pub free : machine.can_bind config.port ≡ true

  abbrev served :
      Config
      → (chosen : Chosen c k) → K
      → Started c r b (methods chosen)
      → Boot c r b (methods chosen)
      → Serving c r b k methods keys
  served config chosen params started boot = record {
    config = config;
    fee = config.fee;
    chosen = chosen;
    tree = started.tree;
    params = params;
    relayer = relayer_of c r b (methods chosen) started boot;
  }

  -- Where all is ready, `main` serves what `init` of the state ends with.
  pub main-init :
      (machine : Machine c r b k methods keys) (config : Config) (chosen : Chosen c k) (params : K)
      (files : Files c r b (methods chosen)) (started : Started c r b (methods chosen))
      (boot : Boot c r b (methods chosen))
      → IsReady machine config chosen params
      → machine.files chosen ≡ files
      → Init.init c r b (methods chosen) files ≡ (ok started, boot)
      → main c r b k methods keys machine ≡ ok (served config chosen params started boot)
  unfolding main init opened_state
  main-init machine config chosen params files started boot ready here begun =
      rw (ready.settings, ready.backend, ready.client, here, begun, ready.read, ready.free) refl

  module _ (chosen : Chosen c k) (tools : Tools c P) where
    abbrev pub bk : BlockchainBackend c P
    bk = methods chosen

    -- The pool has these leaves: it answers with its index and its root.
    pub record Presents (all : List c.Hash) (w w2 : bk.World) : Type 0 where
      pub w1 : bk.World
      pub index : bk.get_pool_index w ≡ (ok (length all * stride c), w1)
      pub root :
          bk.get_merkle_root (length all * stride c) w1
          ≡ (ok (some (tools.to_u256 (root_of c all))), w2)

    -- The program in step with a pool of these leaves.
    abbrev pub serving_at :
        Config
        → K
        → Validation c.Hash P
        → Tables c
        → TxTables c
        → Server
        → bk.World
        → List c.Hash
        → Serving c r b k methods keys
    serving_at config params v t x sv w all = record {
      config = config;
      fee = config.fee;
      chosen = chosen;
      tree = opened c;
      params = params;
      relayer = relayer_at c r b bk tools config (opened c) v t x sv w all;
    }
