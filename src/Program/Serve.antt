-- ===== src/Program/Serve.antt =====
-- `main` of src/main.rs over files that are behind the pool (src/state.rs), and a batch of requests
-- (src/json_api.rs) to the program that it starts.
use zeropool_relayer_rs.Prelude.{
  ℕ, ◌+◌, ◌*◌, ◌^◌, ◌≤◌, ◌<◌, ◌≡◌, refl, some, List, [], ◌++◌, length, length-append, arith,
}
use native.Mathlib.Nat.{mul-le-mul_right}
use zeropool_relayer_rs.Exec.{Outcome, ok, ◌>>◌}
use zeropool_relayer_rs.Crates.{Crates}
use zeropool_relayer_rs.Redis.{Redis}
use zeropool_relayer_rs.Merkle.Storage.{Tables}
use zeropool_relayer_rs.Merkle.Tree.{tree_height}
use zeropool_relayer_rs.Merkle.Spec.{root_of}
use zeropool_relayer_rs.Merkle.Open.{opened, opened-HasDefaults}
use zeropool_relayer_rs.TxStorage.{TxTables, stride}
use zeropool_relayer_rs.JobQueue.{Codec, completed}
use zeropool_relayer_rs.JobQueue.Queue.{Queue, Shows}
use zeropool_relayer_rs.Tx.{TxCalldata}
use zeropool_relayer_rs.Config.{Config}
use zeropool_relayer_rs.Backend.{BlockchainBackend}
use zeropool_relayer_rs.Backend.Choice.{ChainCrates, Chosen}
use zeropool_relayer_rs.Worker.{Payload}
use zeropool_relayer_rs.Worker.Prepare.{InStep, next_product}
use zeropool_relayer_rs.Worker.Process.{Tools}
use zeropool_relayer_rs.State.Init
use zeropool_relayer_rs.State.Init.{Files, Boot, Started}
use zeropool_relayer_rs.State.Sync.{Parses}
use zeropool_relayer_rs.State.Boot.{files_of, booted, started}
use zeropool_relayer_rs.State.Start.{init_catches_up, no_files, Fetches, init_first}
use zeropool_relayer_rs.Api.{Validation, TxDataRequest}
use zeropool_relayer_rs.Api.Backlog.{IsWilling, Accepted, submit_all, run_rounds}
use zeropool_relayer_rs.Api.Backlog.Pipeline.{submit_all-run_rounds}
use zeropool_relayer_rs.Program.{Machine, main}
use zeropool_relayer_rs.Program.Ready.{IsReady, main-init, Presents, serving_at}

module _ (c : Crates) (r : Redis) {P : Type 0} (b : Codec (Payload c P)) (k : ChainCrates c P)
    (methods : Chosen c k → BlockchainBackend c P) {K : Type 0} (keys : Outcome K) where
  open r use {Server}

  module _ (chosen : Chosen c k) (tools : Tools c P) where
    abbrev bk : BlockchainBackend c P
    bk = methods chosen

    module _ (machine : Machine c r b k methods keys) (config : Config) (params : K)
        (v : Validation c.Hash P) where
      -- A start in step with a pool of these leaves, and a batch of requests with these commitments after
      -- it.
      pub record Session (sv : Server) (q : Queue (Payload c P)) (w : bk.World) (now : List c.Hash)
          (all : List (TxDataRequest c.Hash P)) (new_commits : List c.Hash) : Type 0 where
        pub tree_before : Tables c
        pub transactions_before : TxTables c
        pub tree : Tables c
        pub transactions : TxTables c
        pub server : Server
        pub queue : Queue (Payload c P)
        pub world : bk.World
        pub serves :
            main c r b k methods keys machine
            ≡ ok (
                serving_at c r b k methods keys chosen tools config params v tree_before
                  transactions_before sv w now)
        pub runs :
            (submit_all c r b bk tools config (opened c) v all
                >> run_rounds c r b bk tools config (opened c) v (length all))
              ((serving_at c r b k methods keys chosen tools config params v tree_before
                transactions_before sv w now).relayer)
            ≡ (
              ok tt,
              (serving_at c r b k methods keys chosen tools config params v tree transactions server
                  world
                  (now ++ new_commits)).relayer,
            )
        pub in_step : InStep c r b tree transactions (now ++ new_commits)
        pub shows : Shows r b server queue
        pub idle : queue.waiting ≡ []
        pub done : (j : ℕ) → j < length all → queue.status (q.counter + 1 + j) ≡ some completed

      module _ (ready : IsReady c r b k methods keys machine config chosen params)
          (small : tree_height c ≤ 62) (positive : 0 < stride c)
          (bound : 2 ^ tree_height c * stride c + stride c < 2 ^ 64)
          (willing : IsWilling c r b bk tools config (opened c) v) where
        init-Session :
            (files : Files c r b bk) (t1 : Tables c) (x1 : TxTables c) (sv : Server)
            (q : Queue (Payload c P)) (w : bk.World) (now new_commits : List c.Hash)
            (all : List (TxDataRequest c.Hash P))
            → machine.files chosen ≡ files
            → Init.init c r b bk files ≡ (
              ok (started c r b bk (length now * stride c) (tools.to_u256 (root_of c now))),
              booted c r b bk t1 x1 sv w,
            )
            → InStep c r b t1 x1 now
            → Shows r b sv q
            → q.waiting ≡ []
            → Accepted c r b bk tools config (opened c) v (length now * stride c) all new_commits
            → length now + length new_commits ≤ 2 ^ tree_height c
            → Session sv q w now all new_commits
        init-Session files t1 x1 sv q w now new_commits all here begun step shows idle accepted
              room =
            let (t2, x2, sv2, q2, w2, run, step2, shows2, idle2, done) =
              submit_all-run_rounds c r b bk tools config (opened c) v (opened-HasDefaults c) small
                bound willing all new_commits now t1 x1 sv q w step shows idle accepted room in
            record {
              tree_before = t1;
              transactions_before = x1;
              tree = t2;
              transactions = x2;
              server = sv2;
              queue = q2;
              world = w2;
              serves =
                  main-init c r b k methods keys machine config chosen params files _
                    (booted c r b bk t1 x1 sv w) ready here begun;
              runs = run;
              in_step = step2;
              shows = shows2;
              idle = idle2;
              done = done;
            }

        -- The settings are given, a backend is made of them, Redis has a client, the keys are read
        -- and the port is free. There are no files yet, and the server stores a queue without
        -- waiting jobs. The pool answers with its index and the root of its leaves, and, where it
        -- has any, with its transactions, which parse and have a ciphertext in their memos. A
        -- batch of requests is valid for the relayer at the pool's index and for the backend, and
        -- their memos have a ciphertext; the tree has room for all leaves, its height is at most
        -- 62, the stride is positive, the positions fit in 64 bits, every tree proof is made, the
        -- pool accepts every transaction, and no call fails. Then `main` comes to serve with a
        -- relayer at the index and the root of the pool, and from that state all the requests,
        -- followed by as many rounds of the worker, succeed: tree, storage and pool index are in
        -- step with the pool's leaves and the commitments of the requests, no job waits, and the
        -- jobs of the requests are completed.
        pub main-no_files :
            (sv : Server) (q : Queue (Payload c P)) (w w2 w' : bk.World)
            (commits new_commits : List c.Hash) (all_txs : List TxCalldata)
            (all : List (TxDataRequest c.Hash P))
            → machine.files chosen ≡ no_files c r b bk sv w
            → Shows r b sv q
            → q.waiting ≡ []
            → Presents c r b k methods keys chosen tools commits w w2
            → Fetches c r b bk w2 all_txs w'
            → Parses c r b
                (opened c)
                (opened-HasDefaults c)
                small
                bk.parse_calldata
                bk.extract_ciphertext
                sv
                all_txs
                commits
            → Accepted c r b bk tools config
                (opened c)
                v
                (length commits * stride c)
                all
                new_commits
            → length commits + length new_commits ≤ 2 ^ tree_height c
            → Session sv q w' commits all new_commits
        main-no_files sv q w w2 w' commits new_commits all_txs all here shows idle pool answers
              parses accepted room =
            let (t1, x1, begun, step1) =
              init_first c r b bk sv w pool.w1 w2 _ (tools.to_u256 (root_of c commits)) small
                all_txs commits w' pool.index pool.root refl answers parses positive
                (omega (arith, room)) bound in
            init-Session (no_files c r b bk sv w) t1 x1 sv q w' commits new_commits all here begun
              step1 shows idle accepted room

        -- The settings are given, a backend is made of them, Redis has a client, the keys are read
        -- and the port is free. The files hold a tree with its historic roots and a transaction
        -- storage in step with it, whose leaves are the first ones of the pool's, and the pool has
        -- more; the server stores a queue without waiting jobs. The pool answers with its index,
        -- the root of its leaves, and its transactions, of which those that the tree does not have
        -- parse and have a ciphertext in their memos. A batch of requests is valid for the relayer
        -- at the pool's index and for the backend, and their memos have a ciphertext; the tree has
        -- room for all leaves, its height is at most 62, the stride is positive, the positions fit
        -- in 64 bits, every tree proof is made, the pool accepts every transaction, and no call
        -- fails. Then `main` comes to serve with a relayer at the index and the root of the pool,
        -- and from that state all the requests, followed by as many rounds of the worker, succeed:
        -- tree, storage and pool index are in step with the pool's leaves and the commitments of
        -- the requests, no job waits, and the jobs of the requests are completed.
        pub main-submit_all :
            (t : Tables c) (x : TxTables c) (sv : Server) (q : Queue (Payload c P))
            (w w2 w' : bk.World) (leaves commits new_commits : List c.Hash)
            (old new_txs : List TxCalldata) (all : List (TxDataRequest c.Hash P))
            → machine.files chosen ≡ files_of c r b bk t x sv w
            → InStep c r b t x leaves
            → Shows r b sv q
            → q.waiting ≡ []
            → Presents c r b k methods keys chosen tools (leaves ++ commits) w w2
            → bk.fetch_latest_transactions w2 ≡ (ok (old ++ new_txs), w')
            → length old ≡ length leaves
            → Parses c r b
                (opened c)
                (opened-HasDefaults c)
                small
                bk.parse_calldata
                bk.extract_ciphertext
                sv
                new_txs
                commits
            → 0 < length commits
            → Accepted c r b bk tools config
                (opened c)
                v
                (length (leaves ++ commits) * stride c)
                all
                new_commits
            → length (leaves ++ commits) + length new_commits ≤ 2 ^ tree_height c
            → Session sv q w' (leaves ++ commits) all new_commits
        main-submit_all t x sv q w w2 w' leaves commits new_commits old new_txs all here step shows
              idle pool fetched same parses behind accepted room =
            let now : List c.Hash = leaves ++ commits in
            let many : length now ≡ length leaves + length commits = length-append leaves commits in
            let more =
              mul-le-mul_right {m = length leaves + 1} {n = length now} (stride c)
                (omega (arith, many, behind)) in
            let below =
              mul-le-mul_right {m = length now} {n = 2 ^ tree_height c} (stride c)
                (omega (arith, room)) in
            let (t1, x1, begun, step1) =
              init_catches_up c r b bk t x sv w pool.w1 w2 w' leaves (length now * stride c)
                (tools.to_u256 (root_of c now)) step old new_txs commits small pool.index pool.root
                (omega (arith, more, next_product (length leaves) (stride c), positive))
                (omega (arith, below, bound)) fetched same parses positive
                (omega (arith, many, room)) bound in
            init-Session (files_of c r b bk t x sv w) t1 x1 sv q w' now new_commits all here begun
              step1 shows idle accepted room
