-- ===== src/Api/Backlog/Pipeline.antt =====
-- A batch of requests (src/json_api.rs) that are submitted and then sent by the worker (src/tx_worker.rs).
use mathlib.Core.List.{append-nil}
use zeropool_relayer_rs.Prelude.{
  ℕ, ◌+◌, ◌*◌, ◌^◌, ◌≤◌, ◌<◌, ◌≡◌, refl, sym, ap, ◌∙◌, some, List, [], ◌++◌, length, length-append,
  arith,
}
use zeropool_relayer_rs.Exec.{ok, ◌>>◌, bind_ok}
use zeropool_relayer_rs.Crates.{Crates}
use zeropool_relayer_rs.Redis.{Redis}
use zeropool_relayer_rs.Merkle.Storage.{Tables}
use zeropool_relayer_rs.Merkle.Tree.{MerkleTree, tree_height}
use zeropool_relayer_rs.Merkle.View.{HasDefaults}
use zeropool_relayer_rs.Merkle.Spec.{root_of}
use zeropool_relayer_rs.TxStorage.{TxTables, stride}
use zeropool_relayer_rs.TxStorage.Write.{next_of}
use zeropool_relayer_rs.JobQueue.{Codec, completed}
use zeropool_relayer_rs.JobQueue.Queue.{Queue, Shows}
use zeropool_relayer_rs.Config.{Config}
use zeropool_relayer_rs.Backend.{BlockchainBackend}
use zeropool_relayer_rs.Worker.{Payload}
use zeropool_relayer_rs.Worker.Prepare.{InStep}
use zeropool_relayer_rs.Worker.Process.{Tools, Relayer}
use zeropool_relayer_rs.Worker.Await.{relayer}
use zeropool_relayer_rs.Api.{Validation, TxDataRequest}
use zeropool_relayer_rs.Api.Backlog.{
  IsWilling, Accepted, none_left, Lined-length, Accepted-length, submit_all, run_rounds,
}
use zeropool_relayer_rs.Api.Backlog.Submit.{IsLined, submit_all-IsLined}
use zeropool_relayer_rs.Api.Backlog.Drain.{run_rounds-AreCompleted}

module _ (c : Crates) (r : Redis) {P : Type 0} (b : Codec (Payload c P))
    (bk : BlockchainBackend c P) (tools : Tools c P) (config : Config) (tree : MerkleTree c)
    (v : Validation c.Hash P) where
  open r use {Server}

  -- The state of a relayer that has sent all its leaves, or these of them.
  abbrev pub relayer_at : Tables c → TxTables c → Server → bk.World → List c.Hash → Relayer c r b bk
  relayer_at t x sv w sent =
      relayer c r b bk t x sv w (length sent * stride c) (tools.to_u256 (root_of c sent))

  module _ (defaults : HasDefaults c tree) (small : tree_height c ≤ 62)
      (bound : 2 ^ tree_height c * stride c + stride c < 2 ^ 64)
      (willing : IsWilling c r b bk tools config tree v) where
    -- A relayer in step without waiting jobs.
    pub idle-IsLined :
        (leaves : List c.Hash) (t : Tables c) (x : TxTables c) (sv : Server)
        (q : Queue (Payload c P))
        → InStep c r b t x leaves
        → Shows r b sv q
        → q.waiting ≡ []
        → IsLined c r b bk tools config tree v defaults small bound willing t x sv q leaves []
            (q.counter + 1)
    idle-IsLined leaves t x sv q step shows idle = record {
      step = rw (append-nil leaves) step;
      shows = shows;
      lined = rw idle none_left;
      next_id = omega (arith, ap length idle);
    }

    -- A relayer without waiting jobs is in step with the pool: its tree holds a list of leaves and
    -- its historic roots, its transaction storage is sound with the index of the next leaf as its
    -- next, and that index is the pool's. The server stores a queue. Any number of requests are
    -- valid for the relayer at this index and for the backend, and their memos have a ciphertext;
    -- the tree has room for all of them, its height is at most 62, the positions fit in 64 bits,
    -- every tree proof is made, the pool accepts every transaction, and no call fails. Then all
    -- the requests one after another, followed by as many rounds of the worker, succeed; tree,
    -- storage and pool index are in step again with the commitments of the requests as further
    -- leaves, in their order, the pool root is the root of all the leaves, no job waits, and the
    -- jobs of the requests, which have the next ids, are completed.
    pub submit_all-run_rounds :
        (all : List (TxDataRequest c.Hash P)) (commits leaves : List c.Hash) (t : Tables c)
        (x : TxTables c) (sv : Server) (q : Queue (Payload c P)) (w : bk.World)
        → InStep c r b t x leaves
        → Shows r b sv q
        → q.waiting ≡ []
        → Accepted c r b bk tools config tree v (length leaves * stride c) all commits
        → length leaves + length commits ≤ 2 ^ tree_height c
        → (t' : Tables c) × (x' : TxTables c) × (sv' : Server) × (q' : Queue (Payload c P))
          × (w' : bk.World) × ((submit_all c r b bk tools config tree v all
                  >> run_rounds c r b bk tools config tree v (length all))
                (relayer_at t x sv w leaves)
              ≡ (ok tt, relayer_at t' x' sv' w' (leaves ++ commits)))
          × InStep c r b t' x' (leaves ++ commits)
          × Shows r b sv' q'
          × (q'.waiting ≡ [])
          × ((k : ℕ) → k < length all → q'.status (q.counter + 1 + k) ≡ some completed)
    submit_all-run_rounds all commits leaves t x sv q w step shows idle accepted room =
        let whole : leaves ++ [] ≡ leaves = append-nil leaves in
        let (t1, x1, sv1, q1, run1, l1) =
          submit_all-IsLined c r b bk tools config tree v defaults small bound willing
            (length leaves * stride c) all commits leaves [] (q.counter + 1) t x sv q w _ accepted
            (idle-IsLined leaves t x sv q step shows idle) (rw whole room) in
        let many : length q1.waiting ≡ length all =
          Lined-length c r b bk tools config tree v l1.lined
          ∙ sym (Accepted-length c r b bk tools config tree v accepted) in
        let nobody : q1.waiting ≡ [] → next_of c x1 ≡ length leaves * stride c = λ e.
          let none_new : length commits ≡ 0 =
            sym (Lined-length c r b bk tools config tree v l1.lined) ∙ ap length e in
          l1.step.next
          ∙ ap (λ n. n * stride c) (omega (arith, none_new, length-append leaves commits)) in
        let (x2, sv2, q2, w2, run2, sound2, next2, shows2, idle2, done) =
          run_rounds-AreCompleted c r b bk tools config tree v bound willing q1.waiting leaves
            commits (q.counter + 1) t1 x1 sv1 q1 w l1.lined l1.step.transactions nobody l1.shows
            refl (omega (arith, room, length-append leaves commits)) in
        (
          t1,
          x2,
          sv2,
          q2,
          w2,
          bind_ok (submit_all c r b bk tools config tree v all)
                (λ _. run_rounds c r b bk tools config tree v (length all))
                (relayer_at t x sv w leaves) run1
              ∙ ap (λ n. run_rounds c r b bk tools config tree v n (relayer_at t1 x1 sv1 w leaves))
                  (sym many)
              ∙ run2,
          record {
            represents = l1.step.represents;
            remembers = l1.step.remembers;
            transactions = sound2;
            next = next2;
          },
          shows2,
          idle2,
          λ k low. done.done k (omega (arith, low, many)),
        )
