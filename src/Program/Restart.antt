-- ===== src/Program/Restart.antt =====
-- `main` of src/main.rs after a stop with jobs that were not sent yet: what `init` of src/state.rs does
-- with the leaves of those jobs, and what the worker of src/tx_worker.rs does with the jobs.
use zeropool_relayer_rs.Exec.{Outcome}
use zeropool_relayer_rs.Crates.{Crates}
use zeropool_relayer_rs.Redis.{Redis}
use zeropool_relayer_rs.JobQueue.{Codec}
use zeropool_relayer_rs.JobQueue.Queue.{Queue}
use zeropool_relayer_rs.Config.{Config}
use zeropool_relayer_rs.Backend.{BlockchainBackend}
use zeropool_relayer_rs.Backend.Choice.{ChainCrates, Chosen}
use zeropool_relayer_rs.Worker.{Payload}
use zeropool_relayer_rs.Worker.Process.{Tools}

module _ (c : Crates) (r : Redis) {P : Type 0} (b : Codec (Payload c P)) (k : ChainCrates c P)
    (methods : Chosen c k → BlockchainBackend c P) {K : Type 0} (keys : Outcome K)
    (chosen : Chosen c k) (tools : Tools c P) where
  open r use {Server}

  abbrev bk : BlockchainBackend c P
  bk = methods chosen
