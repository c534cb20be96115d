-- ===== src/JobQueue.antt =====
-- `JobQueue` of src/job_queue.rs: jobs and their status in a Redis server. The server is the state.
pub mod Queue
pub mod Steps
pub mod Cancel
mod Tests
use zeropool_relayer_rs.Prelude.{
  ℕ, zero, suc, ◌+◌, Bool, true, false, Option, none, some, List, [], ◌∷◌, ◌≡◌, String, ltb,
  if◌then◌else◌,
}
use zeropool_relayer_rs.Exec.{
  Exec, Outcome, ok, err, panic, invalid_data, job_failed, job_not_found, pure, raise, ◌>>=◌, ◌>>◌,
}
use zeropool_relayer_rs.Exec.Disk.{Disk, io}
use zeropool_relayer_rs.Redis.{Redis, Key, job, job_mapping}

pub data JobStatus : Type 0 where
  pending in_progress completed failed : JobStatus

pub record Job (D : Type 0) : Type 0 where
  pub id : ℕ
  pub payload : D

-- `bincode` at the types that are stored. An id is read from the front of a job too, since
-- `bincode::deserialize` allows trailing bytes.
pub record Codec (D : Type 0) : Type 0 where
  pub status_bytes : JobStatus → List ℕ
  pub read_status : List ℕ → Option JobStatus
  pub read_status-status_bytes : (s : JobStatus) → read_status (status_bytes s) ≡ some s
  pub job_bytes : Job D → List ℕ
  pub read_job : List ℕ → Option (Job D)
  pub read_job-job_bytes : (j : Job D) → read_job (job_bytes j) ≡ some j
  pub id_bytes : ℕ → List ℕ
  pub read_id : List ℕ → Option ℕ
  pub read_id-id_bytes : (i : ℕ) → read_id (id_bytes i) ≡ some i
  pub read_id-job_bytes : (j : Job D) → read_id (job_bytes j) ≡ some j.id

-- `bincode::deserialize(..)?`.
abbrev pub decoded : {A : Type 0} → Option A → Outcome A
decoded none = err invalid_data
decoded (some a) = ok a

abbrev pub is_failed : JobStatus → Bool
is_failed failed = true
is_failed _ = false

abbrev pub cancelled : Option JobStatus → Bool
cancelled none = false
cancelled (some s) = is_failed s

-- One poll of `wait`: `some` ends the loop, `none` sleeps and polls again.
abbrev pub wait_result : Option JobStatus → Outcome (Option (Unit {0}))
wait_result none = err job_not_found
wait_result (some completed) = ok (some tt)
wait_result (some failed) = err job_failed
wait_result (some pending) = ok none
wait_result (some in_progress) = ok none

module _ (r : Redis) {D : Type 0} (b : Codec D) where
  open r use {Server}

  abbrev pub RedisAct : Type 0 → Type 0
  RedisAct A = Exec (Disk Server) A

  abbrev pub set_ex : Key → List ℕ → RedisAct (Unit {0})
  set_ex k data_bytes = io >> λ d. (ok tt, record d { tables = r.set_ex k data_bytes d.tables })

  abbrev pub set_status : ℕ → JobStatus → RedisAct (Unit {0})
  set_status id s = set_ex (job id) (b.status_bytes s)

  abbrev pub fetch : Key → RedisAct (Option (List ℕ))
  fetch k = io >> λ d. (ok (r.get k d.tables), d)

  unfoldable pub push : D → RedisAct ℕ
  unfolding io
  push msg = do
    io
    io
    job_id ← (λ d. (ok (r.job_counter d.tables + 1), record d { tables = r.incr d.tables }))
    io
    (λ d. (
      ok tt,
      record d { tables = r.rpush (b.job_bytes (record { id = job_id; payload = msg })) d.tables },
    ))
    set_status job_id pending
    pure job_id

  abbrev pub decode_status : Option (List ℕ) → Outcome (Option JobStatus)
  decode_status none = ok none
  decode_status (some data_bytes) = elim (b.read_status data_bytes) [
    | none ↦ err invalid_data
    | some s ↦ ok (some s)
  ]

  unfoldable pub job_status : ℕ → RedisAct (Option JobStatus)
  unfolding io
  job_status job_id = do io; found ← fetch (job job_id); λ d. (decode_status found, d)

  unfoldable pub is_job_cancelled : ℕ → RedisAct Bool
  unfolding io
  is_job_cancelled job_id = do
    io
    found ← fetch (job job_id)
    status ← (λ d. (decode_status found, d))
    pure (cancelled status)

  unfoldable pub add_job_mapping : ℕ → String → RedisAct (Unit {0})
  unfolding io
  add_job_mapping job_id key = do io; set_ex (job_mapping key) (b.id_bytes job_id)

  abbrev pub decode_id : Option (List ℕ) → Outcome (Option ℕ)
  decode_id none = ok none
  decode_id (some data_bytes) = elim (b.read_id data_bytes) [
    | none ↦ err invalid_data
    | some i ↦ ok (some i)
  ]

  unfoldable pub get_job_mapping : String → RedisAct (Option ℕ)
  unfolding io
  get_job_mapping key = do io; found ← fetch (job_mapping key); λ d. (decode_id found, d)

  -- `.map(deserialize).collect::<Result<_>>()`.
  unfoldable pub read_ids : List (List ℕ) → Outcome (List ℕ)
  read_ids [] = ok []
  read_ids (data_bytes ∷ rest) = elim (b.read_id data_bytes) [
    | none ↦ err invalid_data
    | some i ↦ elim (read_ids rest) [ ok l ↦ ok (i ∷ l) | err e ↦ err e | panic ↦ panic ]
  ]

  unfoldable pub fail_after : ℕ → List ℕ → RedisAct (Unit {0})
  unfolding io
  fail_after job_id [] = pure tt
  fail_after job_id (id ∷ ids) =
      (if ltb job_id id then set_status id failed else pure tt) >> fail_after job_id ids

  unfoldable pub cancel_jobs_after : ℕ → RedisAct (Unit {0})
  unfolding io
  cancel_jobs_after job_id = do
    io
    io
    ids ← (λ d. (read_ids (r.jobs d.tables), d))
    fail_after job_id ids

  abbrev pub popped : List (List ℕ) → RedisAct (Option (List ℕ))
  popped [] d = (ok none, d)
  popped (data_bytes ∷ rest) d = (ok (some data_bytes), record d { tables = r.lpop d.tables })

  -- A failed BLPOP counts as no job.
  abbrev pub received : Outcome (Unit {0}) → RedisAct (Option (List ℕ))
  received (ok _) d = popped (r.jobs d.tables) d
  received (err _) d = (ok none, d)
  received panic d = (ok none, d)

  abbrev pub blpop : RedisAct (Option (List ℕ))
  blpop d = let (replied, d') = io d in received replied d'

  abbrev pub begun : Option (List ℕ) → RedisAct (Option (Job D))
  begun none = pure none
  begun (some data_bytes) = do
    j ← (λ d. (decoded (b.read_job data_bytes), d))
    set_status j.id in_progress
    pure (some j)

  -- One round of the worker loop of `start`, up to the task that it spawns; `none` where BLPOP gives
  -- no job.
  unfoldable pub take_job : RedisAct (Option (Job D))
  unfolding io
  take_job = do io; found ← blpop; begun found

  -- The end of the spawned task: the result of the handler becomes the status. A failure to write
  -- it is only logged.
  unfoldable pub finish_job : ℕ → Bool → RedisAct (Unit {0})
  unfolding io
  finish_job job_id succeeded d =
      let (_, d') = set_status job_id (if succeeded then completed else failed) d in (ok tt, d')

  module _ {S : Type 0} (on_queue : RedisAct (Unit {0}) → Exec S (Unit {0})) where
    -- The status is written also where the handler of the failure fails; a panic ends the task.
    abbrev pub after_failure : ℕ → Outcome (Unit {0}) → Exec S (Unit {0})
    after_failure job_id (ok _) s = on_queue (finish_job job_id false) s
    after_failure job_id (err _) s = on_queue (finish_job job_id false) s
    after_failure job_id panic s = (panic, s)

    abbrev pub after_job : (Job D → Exec S (Unit {0})) → Job D → Outcome Bool → Exec S (Unit {0})
    after_job err_f j (ok true) s = on_queue (finish_job j.id true) s
    after_job err_f j (ok false) s = (ok tt, s)
    after_job err_f j (err _) s = let (handled, s') = err_f j s in after_failure j.id handled s'
    after_job err_f j panic s = (panic, s)

    -- The task that `start` spawns for a job; `f` gives `false` where it still runs.
    unfoldable pub run_job :
        (Job D → Exec S Bool) → (Job D → Exec S (Unit {0})) → Job D → Exec S (Unit {0})
    run_job f err_f j s = let (done, s') = f j s in after_job err_f j done s'

  unfoldable pub wait_poll : ℕ → RedisAct (Option (Unit {0}))
  unfolding io
  wait_poll job_id = do
    found ← fetch (job job_id)
    status ← (λ d. (decode_status found, d))
    λ d. (wait_result status, d)
