-- ===== src/Api/Backlog/Late.antt =====
-- A batch of two requests (src/json_api.rs), and two more that come while the worker (src/tx_worker.rs)
-- sends it.
use mathlib.Core.List.{append-nil, append_assoc}
use zeropool_relayer_rs.Prelude.{
  ℕ, ◌+◌, ◌*◌, ◌^◌, ◌≤◌, ◌<◌, ◌≡◌, refl, ap, ◌∙◌, List, [], ◌∷◌, ◌++◌, length, length-append, arith,
}
use zeropool_relayer_rs.Exec.{Exec, Outcome, ok, pure, ◌>>=◌, ◌>>◌}
use zeropool_relayer_rs.Crates.{Crates}
use zeropool_relayer_rs.Redis.{Redis}
use zeropool_relayer_rs.Merkle.Storage.{Tables}
use zeropool_relayer_rs.Merkle.Tree.{MerkleTree, tree_height}
use zeropool_relayer_rs.Merkle.View.{HasDefaults}
use zeropool_relayer_rs.Merkle.Spec.{Represents}
use zeropool_relayer_rs.TxStorage.{TxTables, stride}
use zeropool_relayer_rs.TxStorage.Write.{next_of}
use zeropool_relayer_rs.JobQueue.{Codec}
use zeropool_relayer_rs.JobQueue.Queue.{Queue, Shows}
use zeropool_relayer_rs.Tx.{ParsedTxData}
use zeropool_relayer_rs.Config.{Config}
use zeropool_relayer_rs.Backend.{BlockchainBackend}
use zeropool_relayer_rs.Worker.{Payload}
use zeropool_relayer_rs.Worker.Prepare.{InStep}
use zeropool_relayer_rs.Worker.Process.{Tools, Relayer}
use zeropool_relayer_rs.Worker.Run.{worker_round}
use zeropool_relayer_rs.Api.{Validation, TxDataRequest}
use zeropool_relayer_rs.Api.Handlers.{AppResult, CreateTransactionResponse, create_transaction}
use zeropool_relayer_rs.Api.Backlog.{IsWilling, IsAccepted, no_request, request, submit_all}
use zeropool_relayer_rs.Api.Backlog.Submit.{submit_all-IsLined}
use zeropool_relayer_rs.Api.Backlog.Pipeline.{relayer_at, idle-IsLined}
use zeropool_relayer_rs.Api.Backlog.Behind.{refused_at, round-After}

module _ (c : Crates) (r : Redis) {P : Type 0} (b : Codec (Payload c P))
    (bk : BlockchainBackend c P) (tools : Tools c P) (config : Config) (tree : MerkleTree c)
    (v : Validation c.Hash P) where
  open r use {Server}

  -- Two requests, then a round of the worker before each of two more; the answers to those.
  abbrev pub late_requests :
      TxDataRequest c.Hash P
      → TxDataRequest c.Hash P
      → TxDataRequest c.Hash P
      → TxDataRequest c.Hash P
      → Exec
          (Relayer c r b bk)
          (AppResult CreateTransactionResponse × AppResult CreateTransactionResponse)
  late_requests first second third fourth = do
    submit_all c r b bk tools config tree v (first ∷ second ∷ [])
    worker_round c r b bk tools config tree [] (λ s. s)
    answer ← create_transaction c r b bk tree v config third
    worker_round c r b bk tools config tree [] (λ s. s)
    last_answer ← create_transaction c r b bk tree v config fourth
    pure (answer, last_answer)

  late_run :
      (first second third fourth : TxDataRequest c.Hash P) (s s1 s2 s3 s4 s5 : Relayer c r b bk)
      (answer last_answer : AppResult CreateTransactionResponse)
      → submit_all c r b bk tools config tree v (first ∷ second ∷ []) s ≡ (ok tt, s1)
      → worker_round c r b bk tools config tree [] (λ s. s) s1 ≡ (ok tt, s2)
      → create_transaction c r b bk tree v config third s2 ≡ (ok answer, s3)
      → worker_round c r b bk tools config tree [] (λ s. s) s3 ≡ (ok tt, s4)
      → create_transaction c r b bk tree v config fourth s4 ≡ (ok last_answer, s5)
      → late_requests first second third fourth s ≡ (ok (answer, last_answer), s5)
  late_run first second third fourth s s1 s2 s3 s4 s5 answer last_answer e1 e2 e3 e4 e5 =
      rw (e1, e2, e3, e4, e5) refl

  abbrev both_refused :
      ℕ
      → ℕ
      → ℕ
      → ℕ
      → Relayer c r b bk
      → Outcome (AppResult CreateTransactionResponse × AppResult CreateTransactionResponse)
        × Relayer c r b bk
  both_refused i j k l s = (
    ok (
      refused_at c r b bk tools config tree v (i * stride c) (j * stride c),
      refused_at c r b bk tools config tree v (k * stride c) (l * stride c),
    ),
    s,
  )

  same_end :
      (t : Tables c) (x : TxTables c) (sv : Server) (w : bk.World) (i : ℕ) {j j' k k' l l' : ℕ}
      {sent sent' : List c.Hash}
      → j ≡ j'
      → k ≡ k'
      → l ≡ l'
      → sent ≡ sent'
      → both_refused i j k l (relayer_at c r b bk tools config tree v t x sv w sent)
        ≡ both_refused i j' k' l' (relayer_at c r b bk tools config tree v t x sv w sent')
  same_end t x sv w i e1 e2 e3 e4 = rw (e1, e2, e3, e4) refl

  module _ (defaults : HasDefaults c tree) (small : tree_height c ≤ 62)
      (bound : 2 ^ tree_height c * stride c + stride c < 2 ^ 64)
      (willing : IsWilling c r b bk tools config tree v) where
    -- A relayer without waiting jobs is in step with the pool, and two requests are submitted.
    -- Then a round of the worker comes before a third request, and a further one before a fourth.
    -- Every request is valid for the relayer, at the index that the pool then has, and for the
    -- backend, its memo has a ciphertext; the tree has room for four leaves, its height is at most
    -- 62, the stride is positive, the positions fit in 64 bits, every tree proof is made, the pool
    -- accepts every transaction, and no call fails. The third and the fourth request are refused
    -- with an internal server error, as the index of their leaf is above the next one of the
    -- transaction storage, also the fourth, which comes when all the jobs are done. The pool then
    -- has the two transactions, the tree has all four leaves, and the next index of the storage is
    -- that behind the two.
    pub late_requests_fail :
        (leaves : List c.Hash) (t : Tables c) (x : TxTables c) (sv : Server)
        (q : Queue (Payload c P)) (w : bk.World)
        (first second third fourth : TxDataRequest c.Hash P) (tx1 tx2 tx3 tx4 : ParsedTxData c P)
        → InStep c r b t x leaves
        → Shows r b sv q
        → q.waiting ≡ []
        → IsAccepted c r b bk tools config tree v (length leaves * stride c) first tx1
        → IsAccepted c r b bk tools config tree v (length leaves * stride c) second tx2
        → IsAccepted c r b bk tools config tree v ((length leaves + 1) * stride c) third tx3
        → IsAccepted c r b bk tools config tree v ((length leaves + 2) * stride c) fourth tx4
        → 0 < stride c
        → length leaves + 4 ≤ 2 ^ tree_height c
        → (t' : Tables c) × (x' : TxTables c) × (sv' : Server) × (w' : bk.World) × (late_requests
              first second third fourth
              (relayer_at c r b bk tools config tree v t x sv w leaves)
            ≡ (
              ok (
                refused_at c r b bk tools config tree v
                    ((length leaves + 1) * stride c)
                    ((length leaves + 2) * stride c),
                refused_at c r b bk tools config tree v
                    ((length leaves + 2) * stride c)
                    ((length leaves + 3) * stride c),
              ),
              relayer_at c r b bk tools config tree v t' x' sv' w'
                  (leaves ++ tx1.out_commit ∷ tx2.out_commit ∷ []),
            ))
          × Represents c t'
              (leaves ++ tx1.out_commit ∷ tx2.out_commit ∷ tx3.out_commit ∷ tx4.out_commit ∷ [])
          × (next_of c x' ≡ (length leaves + 2) * stride c)
    late_requests_fail leaves t x sv q w first second third fourth tx1 tx2 tx3 tx4 step shows idle
          a1 a2 a3 a4 positive room =
        let n : ℕ = length leaves in
        let h1 : c.Hash = tx1.out_commit in
        let h2 : c.Hash = tx2.out_commit in
        let h3 : c.Hash = tx3.out_commit in
        let one : List c.Hash = leaves ++ h1 ∷ [] in
        let two : List c.Hash = leaves ++ h1 ∷ h2 ∷ [] in
        let n1 : length one + 1 ≡ n + 2 = omega (arith, length-append leaves (h1 ∷ [])) in
        let n2 : length two ≡ n + 2 = length-append leaves (h1 ∷ h2 ∷ []) in
        let n3 : length (two ++ h3 ∷ []) ≡ n + 3 = omega (arith, n2, length-append two (h3 ∷ [])) in
        let (t1, x1, sv1, q1, run1, l1) =
          submit_all-IsLined c r b bk tools config tree v defaults small bound willing
            (n * stride c) (first ∷ second ∷ []) (h1 ∷ h2 ∷ []) leaves [] (q.counter + 1) t x sv q w
            _
            (request first (second ∷ []) tx1 (h2 ∷ []) a1 (request second [] tx2 [] a2 no_request))
            (idle-IsLined c r b bk tools config tree v defaults small bound willing leaves t x sv q
              step shows idle)
            (rw (append-nil leaves) (omega (arith, room))) in
        let d =
          round-After c r b bk tools config tree v defaults small bound willing t1 x1 sv1 q1 w _
            (q.counter + 1) leaves two (h2 ∷ []) h1 third tx3 l1.step.represents l1.step.remembers
            l1.step.transactions l1.shows l1.lined a3 positive (omega (arith, n2))
            (omega (arith, n2, room)) in
        let e =
          round-After c r b bk tools config tree v defaults small bound willing d.tables
            d.transactions d.server d.queue d.world _ (q.counter + 1 + 1) one (two ++ h3 ∷ []) [] h2
            fourth tx4 d.represents d.remembers d.tx_sound d.shows d.lined (rw n1 a4) positive
            (omega (arith, n1, n3)) (omega (arith, n3, room)) in
        (
          e.tables,
          e.transactions,
          e.server,
          e.world,
          late_run first second third fourth
                (relayer_at c r b bk tools config tree v t x sv w leaves) _ _ _ _ _ _ _ run1 d.round
                d.answer e.round e.answer
              ∙ same_end e.tables e.transactions e.server e.world (n + 1) n2 n1 n3
                  (append_assoc leaves (h1 ∷ []) (h2 ∷ [])),
          rw (← append_assoc leaves (h1 ∷ h2 ∷ h3 ∷ []) (tx4.out_commit ∷ []))
              (rw (← append_assoc leaves (h1 ∷ h2 ∷ []) (h3 ∷ [])) e.represents),
          e.next ∙ ap (λ k. k * stride c) n1,
        )
