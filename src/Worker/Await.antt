-- ===== src/Worker/Await.antt =====
-- The loop of `process_job` (src/tx_worker.rs) that waits for the turn of a job.
use zeropool_relayer_rs.Prelude.{ℕ, ◌≡◌, refl, sym, ap, ◌∙◌, Bool, true, false, List, [], ◌∷◌, ◌++◌}
use zeropool_relayer_rs.Exec.{Outcome, ok, err, job_cancelled}
use zeropool_relayer_rs.Crates.{Crates}
use zeropool_relayer_rs.Redis.{Redis}
use zeropool_relayer_rs.Merkle.Storage.{Tables}
use zeropool_relayer_rs.TxStorage.{TxTables}
use zeropool_relayer_rs.JobQueue.{Codec, cancelled}
use zeropool_relayer_rs.JobQueue.Queue.{Queue, Shows}
use zeropool_relayer_rs.JobQueue.Steps.{job_status-Shows}
use zeropool_relayer_rs.Config.{Config}
use zeropool_relayer_rs.Backend.{BlockchainBackend}
use zeropool_relayer_rs.Worker.{Payload}
use zeropool_relayer_rs.Worker.Failure.{all_sound}
use zeropool_relayer_rs.Worker.Process.{Tools, Relayer, is_turn, poll, await_turn}

module _ (c : Crates) (r : Redis) {P : Type 0} (b : Codec (Payload c P))
    (bk : BlockchainBackend c P) where
  open r use {Server}

  -- A state of the relayer whose stores have no faults.
  abbrev pub relayer : Tables c → TxTables c → Server → bk.World → ℕ → ℕ → Relayer c r b bk
  relayer t x s w pool_index pool_root = record {
    app = all_sound c r b t x s;
    chain = w;
    pool_index = pool_index;
    pool_root = pool_root;
  }

  -- The stores have no faults, and the server stores this queue.
  pub record Calm (s : Relayer c r b bk) (q : Queue (Payload c P)) : Type 0 where
    pub tables : Tables c
    pub transactions : TxTables c
    pub server : Server
    pub state : s ≡ relayer tables transactions server s.chain s.pool_index s.pool_root
    pub shows : Shows r b server q

  module _ (tools : Tools c P) (config : Config) (id n : ℕ) where
    poll_at :
        (t : Tables c) (x : TxTables c) (sv : Server) (w : bk.World) (i root : ℕ)
        (q : Queue (Payload c P))
        → Shows r b sv q
        → ((cancelled (q.status id) ≡ true
              → poll c r b bk tools config id n (relayer t x sv w i root)
                ≡ (err job_cancelled, relayer t x sv w i root))
            × (cancelled (q.status id) ≡ false
                → poll c r b bk tools config id n (relayer t x sv w i root)
                  ≡ (ok (is_turn c i n), relayer t x sv w i root)))
    unfolding poll
    poll_at t x sv w i root q shows =
        let e = (job_status-Shows r b sv q shows id).1 in
        (λ yes_it_is. rw (e, yes_it_is) refl, λ no_it_is_not. rw (e, no_it_is_not) refl)

    abbrev look : Relayer c r b bk → Outcome Bool × Relayer c r b bk
    look = poll c r b bk tools config id n

    -- What a poll finds: the job is cancelled, or it is its turn, or neither.
    pub record FindsCancelled (s : Relayer c r b bk) : Type 0 where
      pub queue : Queue (Payload c P)
      pub calm : Calm s queue
      pub is_cancelled : cancelled (queue.status id) ≡ true

    pub record Finds (turn : Bool) (s : Relayer c r b bk) : Type 0 where
      pub queue : Queue (Payload c P)
      pub calm : Calm s queue
      pub not_cancelled : cancelled (queue.status id) ≡ false
      pub turn_is : is_turn c s.pool_index n ≡ turn

    look_cancelled : (s : Relayer c r b bk) → FindsCancelled s → look s ≡ (err job_cancelled, s)
    look_cancelled s f =
        let k = f.calm in
        ap look k.state
        ∙ (poll_at k.tables k.transactions k.server s.chain s.pool_index s.pool_root f.queue
              k.shows).0
            f.is_cancelled
        ∙ ap (λ z. (err job_cancelled, z)) (sym k.state)

    look_turn : (turn : Bool) (s : Relayer c r b bk) → Finds turn s → look s ≡ (ok turn, s)
    look_turn turn s f =
        let k = f.calm in
        ap look k.state
        ∙ (poll_at k.tables k.transactions k.server s.chain s.pool_index s.pool_root f.queue
              k.shows).1
            f.not_cancelled
        ∙ ap
            (λ z. (ok z, relayer k.tables k.transactions k.server s.chain s.pool_index s.pool_root))
            f.turn_is
        ∙ ap (λ z. (ok turn, z)) (sym k.state)

    -- Every poll before the last state finds neither, and the sleeps lead there.
    pub data Waits
        : List (Relayer c r b bk → Relayer c r b bk)
          → Relayer c r b bk
          → Relayer c r b bk
          → Type 0 where
      arrived : {s : Relayer c r b bk} → Waits [] s s
      slept :
          {s s' : Relayer c r b bk} (others : Relayer c r b bk → Relayer c r b bk)
          (later : List (Relayer c r b bk → Relayer c r b bk))
          → Finds false s
          → Waits later (others s) s'
          → Waits (others ∷ later) s s'

    abbrev await :
        List (Relayer c r b bk → Relayer c r b bk)
        → Relayer c r b bk
        → Outcome Bool × Relayer c r b bk
    await = await_turn c r b bk tools config id n

    await_now :
        (rest : List (Relayer c r b bk → Relayer c r b bk)) (s : Relayer c r b bk)
        → Finds true s
        → await rest s ≡ (ok true, s)
    unfolding await_turn
    await_now [] s f = look_turn true s f
    await_now (others ∷ later) s f = rw (look_turn true s f) refl

    await_cancelled :
        (rest : List (Relayer c r b bk → Relayer c r b bk)) (s : Relayer c r b bk)
        → FindsCancelled s
        → await rest s ≡ (err job_cancelled, s)
    unfolding await_turn
    await_cancelled [] s f = look_cancelled s f
    await_cancelled (others ∷ later) s f = rw (look_cancelled s f) refl

    -- Sleeps that lead to a state are passed over.
    pub await-Waits :
        {sleeps : List (Relayer c r b bk → Relayer c r b bk)} {s s' : Relayer c r b bk}
        (rest : List (Relayer c r b bk → Relayer c r b bk))
        → Waits sleeps s s'
        → await (sleeps ++ rest) s ≡ await rest s'
    unfolding await_turn
    await-Waits rest arrived = refl
    await-Waits {s} rest (slept others later f w) = rw (look_turn false s f) (await-Waits rest w)

    -- A poll that ends the loop.
    pub data Ends : Outcome Bool → Relayer c r b bk → Type 0 where
      its_turn : {s : Relayer c r b bk} → Finds true s → Ends (ok true) s
      is_over : {s : Relayer c r b bk} → FindsCancelled s → Ends (err job_cancelled) s

    await_end :
        {o : Outcome Bool} {s : Relayer c r b bk}
        (rest : List (Relayer c r b bk → Relayer c r b bk))
        → Ends o s
        → await rest s ≡ (o, s)
    await_end {s = s} rest (its_turn f) = await_now rest s f
    await_end {s = s} rest (is_over f) = await_cancelled rest s f

    -- The sleeps of a job lead through states without faults where it is neither cancelled nor its
    -- turn, to a state without faults where it is its turn or where it is cancelled. Then the loop
    -- ends at that state, with success in the first case and with the error of a cancelled job in
    -- the second.
    pub await_turn_lem :
        (o : Outcome Bool) (sleeps rest : List (Relayer c r b bk → Relayer c r b bk))
        (s s' : Relayer c r b bk)
        → Waits sleeps s s'
        → Ends o s'
        → await (sleeps ++ rest) s ≡ (o, s')
    await_turn_lem o sleeps rest s s' w e = await-Waits rest w ∙ await_end rest e
