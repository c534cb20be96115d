-- ===== src/Api/Backlog/Behind.antt =====
-- A request (src/json_api.rs) that comes while the transaction storage is behind the tree: the worker's
-- `set` (src/tx_worker.rs) has moved its next index back.
use native.Mathlib.Nat.{mul-le-mul_right}
use zeropool_relayer_rs.Prelude.{
  ℕ, ◌+◌, ◌*◌, ◌^◌, ◌≤◌, ◌<◌, ◌≡◌, refl, ap, ◌∙◌, List, [], ◌∷◌, ◌++◌, length, length-append,
  replicate, arith,
}
use zeropool_relayer_rs.Exec.{Outcome, ok, invalid_index}
use zeropool_relayer_rs.Crates.{Crates}
use zeropool_relayer_rs.Redis.{Redis}
use zeropool_relayer_rs.Merkle.Storage.{Tables}
use zeropool_relayer_rs.Merkle.Tree.{MerkleTree, tree_height}
use zeropool_relayer_rs.Merkle.View.{HasDefaults}
use zeropool_relayer_rs.Merkle.Spec.{Represents, Remembers}
use zeropool_relayer_rs.Merkle.AddLeaf.{add_leaf-Represents}
use zeropool_relayer_rs.Merkle.History.{queries_answer}
use zeropool_relayer_rs.TxStorage.{TxTables, stride}
use zeropool_relayer_rs.TxStorage.Entries.{IsSound}
use zeropool_relayer_rs.TxStorage.Write.{next_of, push_lem}
use zeropool_relayer_rs.JobQueue.{Codec, Job}
use zeropool_relayer_rs.JobQueue.Queue.{Queue, Shows}
use zeropool_relayer_rs.Tx.{ParsedTxData}
use zeropool_relayer_rs.Config.{Config}
use zeropool_relayer_rs.Backend.{BlockchainBackend}
use zeropool_relayer_rs.Worker.{Payload, tx_position, prepare_job}
use zeropool_relayer_rs.Worker.Failure.{position_lem}
use zeropool_relayer_rs.Worker.Prepare.{next_product}
use zeropool_relayer_rs.Worker.Process.{Tools, Relayer}
use zeropool_relayer_rs.Worker.Await.{relayer}
use zeropool_relayer_rs.Worker.Run.{worker_round}
use zeropool_relayer_rs.Api.{Validation, TxDataRequest}
use zeropool_relayer_rs.Api.Handlers.{
  AppResult, refused, internal_server_error, CreateTransactionResponse, enqueue_tx,
  create_transaction,
}
use zeropool_relayer_rs.Api.Backlog.{IsWilling, IsAccepted, IsNextJob, Lined, in_line}
use zeropool_relayer_rs.Api.Backlog.Drain.{first-Round}
use zeropool_relayer_rs.Worker.Round.{done_queue}
use zeropool_relayer_rs.Api.Backlog.Pipeline.{relayer_at}

module _ (c : Crates) (r : Redis) {P : Type 0} (b : Codec (Payload c P))
    (bk : BlockchainBackend c P) (tools : Tools c P) (config : Config) (tree : MerkleTree c)
    (v : Validation c.Hash P) where
  open r use {Server}

  grows : (m n : ℕ) → m < n → 0 < stride c → m * stride c < n * stride c
  grows m n h positive =
      let more = mul-le-mul_right {m = m + 1} {n = n} (stride c) (omega (arith, h)) in
      omega (arith, more, next_product m (stride c), positive)

  -- The first job of a line.
  record Head (before : List c.Hash) (id : ℕ) (jobs : List (Job (Payload c P))) (h : c.Hash)
      (hs : List c.Hash) : Type 0 where
    pub job : Job (Payload c P)
    pub later : List (Job (Payload c P))
    pub split : jobs ≡ job ∷ later
    pub is_next : IsNextJob c r b bk tools config tree v before id job h
    pub rest : Lined c r b bk tools config tree v (before ++ h ∷ []) (id + 1) later hs

  Lined-Head :
      {before : List c.Hash} {id : ℕ} {jobs : List (Job (Payload c P))} {h : c.Hash}
      {hs : List c.Hash}
      → Lined c r b bk tools config tree v before id jobs (h ∷ hs)
      → Head before id jobs h hs
  Lined-Head (in_line j jobs h hs first rest) = record {
    job = j;
    later = jobs;
    split = refl;
    is_next = first;
    rest = rest;
  }

  -- The answer of a handler whose push is refused.
  abbrev pub refused_at : ℕ → ℕ → AppResult CreateTransactionResponse
  refused_at next index = refused (internal_server_error (invalid_index next index))

  refused_same :
      (s : Relayer c r b bk) {next next' index index' : ℕ}
      → next ≡ next'
      → index ≡ index'
      → ◌≡◌ {A = Outcome (AppResult CreateTransactionResponse) × Relayer c r b bk}
          (ok (refused_at next index), s)
          (ok (refused_at next' index'), s)
  refused_same s e e' = rw (e, e') refl

  module _ (defaults : HasDefaults c tree) (small : tree_height c ≤ 62)
      (bound : 2 ^ tree_height c * stride c + stride c < 2 ^ 64)
      (willing : IsWilling c r b bk tools config tree v) where
    -- A request while the next index of the storage is below that of the next leaf: the leaf is added,
    -- the transaction is refused.
    pub create_transaction_behind :
        (leaves : List c.Hash) (t : Tables c) (x : TxTables c) (sv : Server) (w : bk.World)
        (i rt : ℕ) (tx_data : TxDataRequest c.Hash P) (tx : ParsedTxData c P)
        → Represents c t leaves
        → Remembers c t leaves
        → IsSound c x
        → next_of c x < length leaves * stride c
        → IsAccepted c r b bk tools config tree v i tx_data tx
        → length leaves < 2 ^ tree_height c
        → (t' : Tables c) × (create_transaction c r b bk tree v config tx_data
              (relayer c r b bk t x sv w i rt)
            ≡ (
              ok (refused_at (next_of c x) (length leaves * stride c)),
              relayer c r b bk t' x sv w i rt,
            ))
          × Represents c t' (leaves ++ tx.out_commit ∷ [])
          × Remembers c t' (leaves ++ tx.out_commit ∷ [])
    unfolding create_transaction enqueue_tx prepare_job
    create_transaction_behind leaves t x sv w i rt tx_data tx rep rem tx_sound behind a room =
        let n : ℕ = length leaves in
        let before = queries_answer c tree defaults t leaves rep in
        let (t1, added, rep1, rem1) =
          add_leaf-Represents c small tree defaults leaves room t tx.out_commit rep rem in
        let below =
          mul-le-mul_right {m = n} {n = 2 ^ tree_height c} (stride c) (omega (arith, room)) in
        let position : tx_position c n ≡ n * stride c =
          position_lem c r b n (omega (arith, below, bound)) in
        let no_push =
          (push_lem c x tx_sound (n * stride c) tx.out_commit (replicate 32 0) a.text).1 behind in
        (
          t1,
          rw
              (
                a.valid,
                a.parsed,
                willing.validates tx w,
                before.0,
                before.1,
                added,
                a.extracted,
                position,
                no_push,
              )
              refl,
          rep1,
          rem1,
        )

    -- A round for the first job in line, and then a request while more leaves than the sent ones are in
    -- the tree.
    pub record After (t : Tables c) (x : TxTables c) (sv : Server) (w : bk.World) (rt id : ℕ)
        (sent all hs : List c.Hash) (h : c.Hash) (tx_data : TxDataRequest c.Hash P)
        (tx : ParsedTxData c P) : Type 0 where
      pub tables : Tables c
      pub transactions : TxTables c
      pub server : Server
      pub world : bk.World
      pub queue : Queue (Payload c P)
      pub round :
          worker_round c r b bk tools config tree []
            (λ s. s)
            (relayer c r b bk t x sv w (length sent * stride c) rt)
          ≡ (
            ok tt,
            relayer_at c r b bk tools config tree v t transactions server world (sent ++ h ∷ []),
          )
      pub answer :
          create_transaction c r b bk tree v config tx_data
            (relayer_at c r b bk tools config tree v t transactions server world (sent ++ h ∷ []))
          ≡ (
            ok (refused_at ((length sent + 1) * stride c) (length all * stride c)),
            relayer_at c r b bk tools config tree v tables transactions server world
                (sent ++ h ∷ []),
          )
      pub represents : Represents c tables (all ++ tx.out_commit ∷ [])
      pub remembers : Remembers c tables (all ++ tx.out_commit ∷ [])
      pub tx_sound : IsSound c transactions
      pub next : next_of c transactions ≡ (length sent + 1) * stride c
      pub shows : Shows r b server queue
      pub lined : Lined c r b bk tools config tree v (sent ++ h ∷ []) (id + 1) queue.waiting hs

    pub round-After :
        (t : Tables c) (x : TxTables c) (sv : Server) (q : Queue (Payload c P)) (w : bk.World)
        (rt id : ℕ) (sent all hs : List c.Hash) (h : c.Hash) (tx_data : TxDataRequest c.Hash P)
        (tx : ParsedTxData c P)
        → Represents c t all
        → Remembers c t all
        → IsSound c x
        → Shows r b sv q
        → Lined c r b bk tools config tree v sent id q.waiting (h ∷ hs)
        → IsAccepted c r b bk tools config tree v ((length sent + 1) * stride c) tx_data tx
        → 0 < stride c
        → length sent + 1 < length all
        → length all < 2 ^ tree_height c
        → After t x sv w rt id sent all hs h tx_data tx
    round-After t x sv q w rt id sent all hs h tx_data tx rep rem tx_sound shows lined a positive
          late room =
        let longer : length (sent ++ h ∷ []) ≡ length sent + 1 = length-append sent (h ∷ []) in
        let there : length (sent ++ h ∷ []) * stride c ≡ (length sent + 1) * stride c =
          ap (λ k. k * stride c) longer in
        let d = Lined-Head lined in
        let f =
          first-Round c r b bk tools config tree v bound willing t x sv q w rt id sent d.job d.later
            h d.is_next tx_sound shows d.split (omega (arith, late, room)) in
        let next : next_of c f.transactions ≡ (length sent + 1) * stride c = f.next ∙ there in
        let (t', refusal, rep', rem') =
          create_transaction_behind all t f.transactions f.server f.world
            (length (sent ++ h ∷ []) * stride c) _ tx_data tx rep rem f.tx_sound
            (rw next (grows (length sent + 1) (length all) late positive)) (rw there a) room in
        record {
          tables = t';
          transactions = f.transactions;
          server = f.server;
          world = f.world;
          queue = done_queue c r b bk tools config tree d.job d.later q;
          round = f.run;
          answer = refusal ∙ refused_same _ next refl;
          represents = rep';
          remembers = rem';
          tx_sound = f.tx_sound;
          next = next;
          shows = f.shows;
          lined = d.rest;
        }
