-- ===== src/JobQueue/Steps.antt =====
-- The operations of src/job_queue.rs on a server without faults, as steps of the queue.
use text.Mathlib.Text.{◌==◌ as str_eq}
use zeropool_relayer_rs.Prelude.{
  ℕ, ◌+◌, ◌≡◌, refl, ap, ◌∙◌, inl, inr, Bool, true, false, Option, Option-cases, some, List, [],
  ◌∷◌, ◌++◌, map, String, ◌==◌, if◌then◌else◌,
}
use zeropool_relayer_rs.Exec.{ok}
use zeropool_relayer_rs.Exec.Disk.{sound}
use zeropool_relayer_rs.Redis.{Redis, job, job_mapping}
use zeropool_relayer_rs.JobQueue.{
  Job, JobStatus, Codec, pending, in_progress, completed, failed, cancelled, push, job_status,
  is_job_cancelled, add_job_mapping, get_job_mapping, take_job, finish_job,
}
use zeropool_relayer_rs.JobQueue.Queue.{
  Queue, Shows, mapped, mark, enqueue, first, start_first, link,
}

mapped-if :
    {A B : Type 0} (f : A → B) (c : Bool) (x : A) (o : Option A)
    → (if c then some (f x) else mapped f o) ≡ mapped f (if c then some x else o)
mapped-if f true x o = refl
mapped-if f false x o = refl

map-append :
    {A B : Type 0} (f : A → B) (xs : List A) (x : A) → map f xs ++ f x ∷ [] ≡ map f (xs ++ x ∷ [])
map-append f [] x = refl
map-append f (y ∷ xs) x = ap (λ l. f y ∷ l) (map-append f xs x)

module _ (r : Redis) {D : Type 0} (b : Codec D) where
  open r use {Server}

  pub mark-Shows :
      (s : Server) (q : Queue D) (id : ℕ) (st : JobStatus)
      → Shows r b s q
      → Shows r b (r.set_ex (job id) (b.status_bytes st) s) (mark id st q)
  mark-Shows s q id st h = record {
    counter = r.job_counter-set_ex (job id) (b.status_bytes st) s ∙ h.counter;
    waiting = r.jobs-set_ex (job id) (b.status_bytes st) s ∙ h.waiting;
    status =
        λ i. rw (r.get-set_ex, h.status i) (mapped-if b.status_bytes (id == i) st (q.status i));
    mapping = λ k. r.get-set_ex (job_mapping k) (job id) (b.status_bytes st) s ∙ h.mapping k;
  }

  module _ (s : Server) (q : Queue D) (h : Shows r b s q) where
    -- Where the server stores a queue and no call fails, `push` gives the next id, and the server
    -- then stores the queue with a pending job of that id at its end.
    pub push-Shows :
        (msg : D)
        → (s' : Server) × (push r b msg (sound s) ≡ (ok (q.counter + 1), sound s'))
          × Shows r b s' (enqueue msg q)
    unfolding push
    push-Shows msg =
        let j : Job D = record { id = q.counter + 1; payload = msg } in
        let appended : List (Job D) = q.waiting ++ j ∷ [] in
        let s1 : Server = r.rpush (b.job_bytes j) (r.incr s) in
        let h1 : Shows r b s1 (record q { counter = q.counter + 1; waiting = appended }) = record {
          counter = rw (r.job_counter-rpush, r.job_counter-incr, h.counter) refl;
          waiting = rw (r.jobs-rpush, r.jobs-incr, h.waiting) (map-append b.job_bytes q.waiting j);
          status = λ i. rw (r.get-rpush, r.get-incr) (h.status i);
          mapping = λ k. rw (r.get-rpush, r.get-incr) (h.mapping k);
        } in
        (_, rw (h.counter) refl, mark-Shows s1 _ (q.counter + 1) pending h1)

    -- Where the server stores a queue and no call fails, `job_status` gives the status of the
    -- queue, `is_job_cancelled` whether that is failed, and neither changes the server.
    pub job_status-Shows :
        (id : ℕ)
        → (job_status r b id (sound s) ≡ (ok (q.status id), sound s))
          × (is_job_cancelled r b id (sound s) ≡ (ok (cancelled (q.status id)), sound s))
    unfolding job_status is_job_cancelled
    job_status-Shows id = elim (Option-cases (q.status id)) [
      | inl e ↦ rw (h.status id, e) (refl, refl)
      | inr (st, e) ↦ rw (h.status id, e, b.read_status-status_bytes st) (refl, refl)
    ]

    pub link-Shows :
        (id : ℕ) (key : String)
        → Shows r b (r.set_ex (job_mapping key) (b.id_bytes id) s) (link id key q)
    link-Shows id key = record {
      counter = r.job_counter-set_ex (job_mapping key) (b.id_bytes id) s ∙ h.counter;
      waiting = r.jobs-set_ex (job_mapping key) (b.id_bytes id) s ∙ h.waiting;
      status = λ i. r.get-set_ex (job i) (job_mapping key) (b.id_bytes id) s ∙ h.status i;
      mapping = λ k.
          rw (r.get-set_ex, h.mapping k) (mapped-if b.id_bytes (str_eq key k) id (q.mapping k));
    }

    pub add_job_mapping-Shows :
        (id : ℕ) (key : String)
        → (s' : Server) × (add_job_mapping r b id key (sound s) ≡ (ok tt, sound s'))
          × Shows r b s' (link id key q)
    unfolding add_job_mapping
    add_job_mapping-Shows id key =
        (r.set_ex (job_mapping key) (b.id_bytes id) s, refl, link-Shows id key)

    pub get_job_mapping-Shows :
        (key : String) → get_job_mapping r b key (sound s) ≡ (ok (q.mapping key), sound s)
    unfolding get_job_mapping
    get_job_mapping-Shows key = elim (Option-cases (q.mapping key)) [
      | inl e ↦ rw (h.mapping key, e) refl
      | inr (id, e) ↦ rw (h.mapping key, e, b.read_id-id_bytes id) refl
    ]

    pub finish_job-Shows :
        (id : ℕ) (succeeded : Bool)
        → (s' : Server) × (finish_job r b id succeeded (sound s) ≡ (ok tt, sound s'))
          × Shows r b s' (mark id (if succeeded then completed else failed) q)
    unfolding finish_job
    finish_job-Shows id succeeded =
        (_, refl, mark-Shows s q id (if succeeded then completed else failed) h)

    take-waiting :
        (l : List (Job D))
        → q.waiting ≡ l
        → (s' : Server) × (take_job r b (sound s) ≡ (ok (first l), sound s'))
          × Shows r b s' (start_first l q)
    unfolding take_job
    take-waiting [] e =
        let no_jobs : r.jobs s ≡ [] = h.waiting ∙ ap (map b.job_bytes) e in (s, rw no_jobs refl, h)
    take-waiting (j ∷ rest) e =
        let jobs : r.jobs s ≡ b.job_bytes j ∷ map b.job_bytes rest =
          h.waiting ∙ ap (map b.job_bytes) e in
        let popped : Shows r b (r.lpop s) (record q { waiting = rest }) = record {
          counter = r.job_counter-lpop s ∙ h.counter;
          waiting = r.jobs-lpop (b.job_bytes j) (map b.job_bytes rest) s jobs;
          status = λ i. r.get-lpop (job i) s ∙ h.status i;
          mapping = λ k. r.get-lpop (job_mapping k) s ∙ h.mapping k;
        } in
        (
          r.set_ex (job j.id) (b.status_bytes in_progress) (r.lpop s),
          rw (jobs, b.read_job-job_bytes j) refl,
          mark-Shows (r.lpop s) (record q { waiting = rest }) j.id in_progress popped,
        )

    -- Where the server stores a queue and no call fails, a round of the worker loop takes the
    -- first waiting job, if there is one, and the server then stores the queue without it, with
    -- its status in progress.
    pub take_job-Shows :
        (s' : Server) × (take_job r b (sound s) ≡ (ok (first q.waiting), sound s'))
        × Shows r b s' (start_first q.waiting q)
    take_job-Shows = take-waiting q.waiting refl

  -- Where the server stores a queue and no call fails, a mapping that was added is found under its
  -- key, and every other key keeps its mapping.
  pub add-then-get :
      (s : Server) (q : Queue D) (id : ℕ) (key other : String)
      → Shows r b s q
      → (s' : Server) × (add_job_mapping r b id key (sound s) ≡ (ok tt, sound s'))
        × (get_job_mapping r b other (sound s')
            ≡ (ok (if str_eq key other then some id else q.mapping other), sound s'))
  add-then-get s q id key other h =
      let (s', run, h') = add_job_mapping-Shows s q h id key in
      (s', run, get_job_mapping-Shows s' (link id key q) h' other)
