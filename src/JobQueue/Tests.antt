-- ===== src/JobQueue/Tests.antt =====
-- Examples for src/job_queue.rs over the sample server, with two jobs pushed.
use zeropool_relayer_rs.Prelude.{ℕ, ◌≡◌, refl, true, false, none, some, [], ◌∷◌, arith}
use zeropool_relayer_rs.Exec.{ok}
use zeropool_relayer_rs.Exec.Disk.{sound}
use zeropool_relayer_rs.Sample.{sample_redis, sample_codec, Memory}
use zeropool_relayer_rs.JobQueue.{
  Job, push, take_job, is_job_cancelled, cancel_jobs_after, add_job_mapping, get_job_mapping,
}
use zeropool_relayer_rs.JobQueue.Queue.{Queue, Shows, enqueue, first, start_first, cancel_later}
use zeropool_relayer_rs.JobQueue.Steps.{push-Shows, take_job-Shows, add-then-get}
use zeropool_relayer_rs.JobQueue.Cancel.{cancel_jobs_after-Shows, cancel-then-take}

abbrev empty_server : Memory
empty_server = record { last = 0; queue = []; store = λ _. none }

abbrev empty_queue : Queue ℕ
empty_queue = record { counter = 0; waiting = []; status = λ _. none; mapping = λ _. none }

abbrev empty_Shows : Shows sample_redis sample_codec empty_server empty_queue
empty_Shows = record { counter = refl; waiting = refl; status = λ i. refl; mapping = λ k. refl }

abbrev one_queue : Queue ℕ
one_queue = enqueue 40 empty_queue

abbrev two_queue : Queue ℕ
two_queue = enqueue 50 one_queue

abbrev one_push :
    (s : Memory) × (push sample_redis sample_codec 40 (sound empty_server) ≡ (ok 1, sound s))
    × Shows sample_redis sample_codec s one_queue
one_push = push-Shows sample_redis sample_codec empty_server empty_queue empty_Shows 40

abbrev one_job : Memory
one_job = one_push.0

abbrev two_push :
    (s : Memory) × (push sample_redis sample_codec 50 (sound one_job) ≡ (ok 2, sound s))
    × Shows sample_redis sample_codec s two_queue
two_push = push-Shows sample_redis sample_codec one_job one_queue one_push.2 50

abbrev two_jobs : Memory
two_jobs = two_push.0

abbrev two_Shows : Shows sample_redis sample_codec two_jobs two_queue
two_Shows = two_push.2

push-Shows_example :
    (s' : Memory) × (push sample_redis sample_codec 60 (sound two_jobs) ≡ (ok 3, sound s'))
    × Shows sample_redis sample_codec s' (enqueue 60 two_queue)
push-Shows_example = push-Shows sample_redis sample_codec two_jobs two_queue two_Shows 60

take_job-Shows_example :
    (s' : Memory) × (take_job sample_redis sample_codec (sound two_jobs)
      ≡ (ok (first two_queue.waiting), sound s'))
    × Shows sample_redis sample_codec s' (start_first two_queue.waiting two_queue)
take_job-Shows_example = take_job-Shows sample_redis sample_codec two_jobs two_queue two_Shows

add-then-get_example :
    (s' : Memory) × (add_job_mapping sample_redis sample_codec 2 "a" (sound two_jobs)
      ≡ (ok tt, sound s'))
    × (get_job_mapping sample_redis sample_codec "a" (sound s') ≡ (ok (some 2), sound s'))
add-then-get_example = add-then-get sample_redis sample_codec two_jobs two_queue 2 "a" "a" two_Shows

cancel_jobs_after-Shows_example :
    (s' : Memory) × (cancel_jobs_after sample_redis sample_codec 1 (sound two_jobs)
      ≡ (ok tt, sound s'))
    × Shows sample_redis sample_codec s' (cancel_later 1 two_queue)
cancel_jobs_after-Shows_example =
    cancel_jobs_after-Shows sample_redis sample_codec two_jobs two_queue 1 two_Shows

abbrev job_one : Job ℕ
job_one = record { id = 1; payload = 40 }

abbrev job_two : Job ℕ
job_two = record { id = 2; payload = 50 }

cancel-then-take_example :
    (s1 s2 : Memory) × (cancel_jobs_after sample_redis sample_codec 0 (sound two_jobs)
      ≡ (ok tt, sound s1))
    × (is_job_cancelled sample_redis sample_codec 1 (sound s1) ≡ (ok true, sound s1))
    × (take_job sample_redis sample_codec (sound s1) ≡ (ok (some job_one), sound s2))
    × (is_job_cancelled sample_redis sample_codec 1 (sound s2) ≡ (ok false, sound s2))
cancel-then-take_example =
    cancel-then-take sample_redis sample_codec two_jobs two_queue 0 job_one (job_two ∷ []) two_Shows
      refl (omega arith)
