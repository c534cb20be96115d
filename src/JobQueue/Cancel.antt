-- ===== src/JobQueue/Cancel.antt =====
-- `cancel_jobs_after` of src/job_queue.rs on a server without faults.
use zeropool_relayer_rs.Prelude.{
  ℕ, ◌<◌, ◌≡◌, refl, ap, ◌∙◌, inl, inr, true, false, Bool-cases, Option, some, List, [], ◌∷◌, map,
  ◌==◌, ==_iff, ltb, lt→ltb, arith, if◌then◌else◌,
}
use zeropool_relayer_rs.Exec.{ok}
use zeropool_relayer_rs.Exec.Disk.{sound, io}
use zeropool_relayer_rs.Redis.{Redis}
use zeropool_relayer_rs.JobQueue.{
  Job, JobStatus, Codec, failed, cancelled, read_ids, fail_after, cancel_jobs_after,
  is_job_cancelled, take_job,
}
use zeropool_relayer_rs.JobQueue.Queue.{Queue, Shows, start_first, is_waiting, cancel_later, first}
use zeropool_relayer_rs.JobQueue.Steps.{mark-Shows, job_status-Shows, take_job-Shows}

abbrev ids_of : {D : Type 0} → List (Job D) → List ℕ
ids_of l = map (λ j. j.id) l

module _ {D : Type 0} where
  -- The statuses after the jobs of `l` were looked at.
  abbrev later_status : ℕ → List (Job D) → (ℕ → Option JobStatus) → ℕ → Option JobStatus
  later_status id l f i = if ltb id i then (if is_waiting i l then some failed else f i) else f i

  abbrev with_status : Queue D → (ℕ → Option JobStatus) → Queue D
  with_status q f = record q { status = f }

  skip_status :
      (id : ℕ) (j : Job D) (l : List (Job D)) (f : ℕ → Option JobStatus) (i : ℕ)
      → ltb id j.id ≡ false
      → later_status id (j ∷ l) f i ≡ later_status id l f i
  skip_status id j l f i e = ground (arith, ==_iff j.id i)

  fail_status :
      (id : ℕ) (j : Job D) (l : List (Job D)) (f : ℕ → Option JobStatus) (i : ℕ)
      → ltb id j.id ≡ true
      → later_status id (j ∷ l) f i
        ≡ later_status id l (λ k. if j.id == k then some failed else f k) i
  fail_status id j l f i e = ground (arith, ==_iff j.id i)

  cancelled_later :
      (id : ℕ) (q : Queue D) (j : Job D) (rest : List (Job D))
      → q.waiting ≡ j ∷ rest
      → id < j.id
      → cancelled ((cancel_later id q).status j.id) ≡ true
  cancelled_later id q j rest w later = rw (lt→ltb id j.id later, w, (==_iff j.id j.id).1 refl) refl

  taken_status :
      (id : ℕ) (q : Queue D) (j : Job D) (rest : List (Job D))
      → q.waiting ≡ j ∷ rest
      → cancelled ((start_first q.waiting (cancel_later id q)).status j.id) ≡ false
  taken_status id q j rest w = rw (w, (==_iff j.id j.id).1 refl) refl

module _ (r : Redis) {D : Type 0} (b : Codec D) where
  open r use {Server}

  read_ids_lem : (l : List (Job D)) → read_ids r b (map b.job_bytes l) ≡ ok (ids_of l)
  unfolding read_ids
  read_ids_lem [] = refl
  read_ids_lem (j ∷ l) = rw (b.read_id-job_bytes j, read_ids_lem l) refl

  Shows-status :
      (s : Server) (q : Queue D) (f : ℕ → Option JobStatus)
      → Shows r b s q
      → ((i : ℕ) → f i ≡ q.status i)
      → Shows r b s (with_status q f)
  Shows-status s q f h e = record {
    counter = h.counter;
    waiting = h.waiting;
    status = λ i. rw (e i) (h.status i);
    mapping = h.mapping;
  }

  abbrev FailedAfter : ℕ → List (Job D) → Server → Queue D → Type 0
  FailedAfter id l s q =
      (s' : Server) × (fail_after r b id (ids_of l) (sound s) ≡ (ok tt, sound s'))
      × Shows r b s' (with_status q (later_status id l q.status))

  fail_after-Shows :
      (id : ℕ) (l : List (Job D)) (s : Server) (q : Queue D) → Shows r b s q → FailedAfter id l s q
  unfolding fail_after io
  fail_after-Shows id [] s q h = (s, refl, Shows-status s q _ h (λ i. ground arith))
  fail_after-Shows id (j ∷ l) s q h = elim (Bool-cases (ltb id j.id)) [
    | inl e ↦
        let (s', run, shown) = fail_after-Shows id l _ _ (mark-Shows r b s q j.id failed h) in
        (s', rw e run, Shows-status s' _ _ shown (λ i. fail_status id j l q.status i e))
    | inr e ↦
        let (s', run, shown) = fail_after-Shows id l s q h in
        (s', rw e run, Shows-status s' _ _ shown (λ i. skip_status id j l q.status i e))
  ]

  -- Where the server stores a queue and no call fails, `cancel_jobs_after` marks exactly the
  -- waiting jobs with a later id as failed, and leaves all else of the queue as it is.
  pub cancel_jobs_after-Shows :
      (s : Server) (q : Queue D) (id : ℕ)
      → Shows r b s q
      → (s' : Server) × (cancel_jobs_after r b id (sound s) ≡ (ok tt, sound s'))
        × Shows r b s' (cancel_later id q)
  unfolding cancel_jobs_after
  cancel_jobs_after-Shows s q id h =
      let (s', run, shown) = fail_after-Shows id q.waiting s q h in
      (s', rw (h.waiting, read_ids_lem q.waiting) run, shown)

  -- Where the server stores a queue and no call fails, a waiting job at the front that
  -- `cancel_jobs_after` cancels counts as cancelled, and it is taken by the worker all the same;
  -- after that it does not count as cancelled any more.
  pub cancel-then-take :
      (s : Server) (q : Queue D) (id : ℕ) (j : Job D) (rest : List (Job D))
      → Shows r b s q
      → q.waiting ≡ j ∷ rest
      → id < j.id
      → (s1 s2 : Server) × (cancel_jobs_after r b id (sound s) ≡ (ok tt, sound s1))
        × (is_job_cancelled r b j.id (sound s1) ≡ (ok true, sound s1))
        × (take_job r b (sound s1) ≡ (ok (some j), sound s2))
        × (is_job_cancelled r b j.id (sound s2) ≡ (ok false, sound s2))
  cancel-then-take s q id j rest h w later =
      let (s1, run1, h1) = cancel_jobs_after-Shows s q id h in
      let (s2, run2, h2) = take_job-Shows r b s1 (cancel_later id q) h1 in
      (
        s1,
        s2,
        run1,
        (job_status-Shows r b s1 (cancel_later id q) h1 j.id).1
            ∙ ap (λ x. (ok x, sound s1)) (cancelled_later id q j rest w later),
        run2 ∙ ap (λ l. (ok (first l), sound s2)) w,
        (job_status-Shows r b s2 (start_first q.waiting (cancel_later id q)) h2 j.id).1
            ∙ ap (λ x. (ok x, sound s2)) (taken_status id q j rest w),
      )
