-- ===== src/JobQueue/Queue.antt =====
-- What the job queue of src/job_queue.rs promises: a counter, the waiting jobs in order, and a
-- status and a mapping for each key.
use text.Mathlib.Text.{◌==◌ as str_eq}
use zeropool_relayer_rs.Prelude.{
  ℕ, ◌+◌, ◌≡◌, Bool, false, ◌||◌, Option, none, some, List, [], ◌∷◌, ◌++◌, map, String, ◌==◌, ltb,
  if◌then◌else◌,
}
use zeropool_relayer_rs.Redis.{Redis, job, job_mapping}
use zeropool_relayer_rs.JobQueue.{Job, JobStatus, Codec, pending, in_progress, failed}

pub record Queue (D : Type 0) : Type 0 where
  pub counter : ℕ
  pub waiting : List (Job D)
  pub status : ℕ → Option JobStatus
  pub mapping : String → Option ℕ

abbrev pub mapped : {A B : Type 0} → (A → B) → Option A → Option B
mapped f none = none
mapped f (some a) = some (f a)

module _ {D : Type 0} where
  abbrev pub mark : ℕ → JobStatus → Queue D → Queue D
  mark id s q = record q { status = λ i. if id == i then some s else q.status i }

  abbrev pub enqueue : D → Queue D → Queue D
  enqueue msg q = mark (q.counter + 1) pending (record q {
    counter = q.counter + 1;
    waiting = q.waiting ++ record { id = q.counter + 1; payload = msg } ∷ [];
  })

  abbrev pub first : List (Job D) → Option (Job D)
  first [] = none
  first (j ∷ _) = some j

  abbrev pub start_first : List (Job D) → Queue D → Queue D
  start_first [] q = q
  start_first (j ∷ rest) q = mark j.id in_progress (record q { waiting = rest })

  abbrev pub is_waiting : ℕ → List (Job D) → Bool
  is_waiting i [] = false
  is_waiting i (j ∷ rest) = (j.id == i) || is_waiting i rest

  -- The waiting jobs with a later id become failed.
  abbrev pub cancel_later : ℕ → Queue D → Queue D
  cancel_later id q = record q {
    status = λ i.
        if ltb id i
        then (if is_waiting i q.waiting then some failed else q.status i)
        else q.status i;
  }

  abbrev pub link : ℕ → String → Queue D → Queue D
  link id key q = record q { mapping = λ k. if str_eq key k then some id else q.mapping k }

module _ (r : Redis) {D : Type 0} (b : Codec D) where
  open r use {Server}

  -- The server stores the queue.
  pub record Shows (s : Server) (q : Queue D) : Type 0 where
    pub counter : r.job_counter s ≡ q.counter
    pub waiting : r.jobs s ≡ map b.job_bytes q.waiting
    pub status : (i : ℕ) → r.get (job i) s ≡ mapped b.status_bytes (q.status i)
    pub mapping : (k : String) → r.get (job_mapping k) s ≡ mapped b.id_bytes (q.mapping k)
