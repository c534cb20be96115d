-- ===== src/Worker/Tests/Running.antt =====
-- Examples for `process_job` of src/tx_worker.rs over the sample relayer: a job at index 1 that waits
-- through one sleep, and a job that is cancelled.
use zeropool_relayer_rs.Prelude.{ℕ, zero, suc, ◌≢◌, ◌≡◌, refl, true, false, [], ◌∷◌, arith}
use zeropool_relayer_rs.Exec.{ok, err, job_cancelled}
use zeropool_relayer_rs.Sample.{sample, sample_redis, Memory}
use zeropool_relayer_rs.Sample.Payloads.{payload_codec}
use zeropool_relayer_rs.Sample.Relayer.{
  tree, defaults, small, server, no_jobs, no_jobs_Shows, tx, ciphertext, tools, config, pool,
}
use zeropool_relayer_rs.Merkle.Storage.{Tables}
use zeropool_relayer_rs.Merkle.Open.{initial}
use zeropool_relayer_rs.Merkle.Spec.{Represents}
use zeropool_relayer_rs.TxStorage.{TxTables, fresh, record_bytes}
use zeropool_relayer_rs.TxStorage.Entries.{fresh-IsSound}
use zeropool_relayer_rs.TxStorage.Write.{IsWrite}
use zeropool_relayer_rs.TxStorage.Remove.{IsRollback}
use zeropool_relayer_rs.JobQueue.{Job, failed}
use zeropool_relayer_rs.JobQueue.Queue.{Queue, Shows, mark, cancel_later, link}
use zeropool_relayer_rs.JobQueue.Steps.{link-Shows, mark-Shows}
use zeropool_relayer_rs.Worker.{Payload, tx_position}
use zeropool_relayer_rs.Worker.Process.{Relayer, process_job}
use zeropool_relayer_rs.Worker.Await.{relayer, Calm, Finds, FindsCancelled, Waits, arrived, slept}
use zeropool_relayer_rs.Worker.Sending.{
  with_mapping, is_cancelled, process_job-GivesUp, process_job_sends,
}
use zeropool_relayer_rs.Worker.Run.{run_tx, run_tx-rolls_back}
use zeropool_relayer_rs.Worker.Turns.{
  Phase, waiting, sending, stored, Pool, enter, Distinct, Reach, here, next, begin, store,
  one_sender,
}
use zeropool_relayer_rs.Worker.Tests.{three, job_three}

abbrev State : Type 0
State = Relayer sample sample_redis payload_codec pool

abbrev next_job : Job (Payload sample ℕ)
next_job = record {
  id = 1;
  payload = record {
    tx = tx 22;
    tree_pub = record { root_before = 1; root_after = 2; leaf = 22 };
    tree_sec = record {
      proof_filled = record { sibling = []; path = [] };
      proof_free = record { sibling = []; path = [] };
      prev_leaf = 11;
    };
    next_commit_index = 1;
    prev_commit_index = 0;
  };
}

abbrev linked_server : Memory
linked_server = with_mapping sample sample_redis payload_codec pool tools config next_job server

-- The pool is at this index.
abbrev at : ℕ → State
at i =
    relayer sample sample_redis payload_codec pool (initial sample) (fresh sample) linked_server i i
      0

abbrev at_Calm : (i : ℕ) → Calm sample sample_redis payload_codec pool (at i) (link 1 "a" no_jobs)
at_Calm i = record {
  tables = initial sample;
  transactions = fresh sample;
  server = linked_server;
  state = refl;
  shows = link-Shows sample_redis payload_codec server no_jobs no_jobs_Shows 1 "a";
}

abbrev not_yet : Finds sample sample_redis payload_codec pool tools config 1 1 false (at 0)
not_yet = record {
  queue = link 1 "a" no_jobs;
  calm = at_Calm 0;
  not_cancelled = refl;
  turn_is = refl;
}

abbrev turn : Finds sample sample_redis payload_codec pool tools config 1 1 true (at 128)
turn = record {
  queue = link 1 "a" no_jobs;
  calm = at_Calm 128;
  not_cancelled = refl;
  turn_is = refl;
}

-- Another job is done in the sleep.
abbrev move_on : State → State
move_on s = at 128

abbrev one_sleep :
    Waits sample sample_redis payload_codec pool tools config 1 1 (move_on ∷ []) (at 0) (at 128)
one_sleep = slept move_on [] not_yet arrived

process_job_sends_example :
    (x3 : TxTables sample) × (process_job sample sample_redis payload_codec pool tools config
        next_job
        (move_on ∷ [])
        (λ s. s)
        (relayer sample sample_redis payload_codec pool
          (initial sample)
          (fresh sample)
          server
          0
          0
          0)
      ≡ (
        ok true,
        relayer sample sample_redis payload_codec pool (initial sample) x3 linked_server 256 256 2,
      ))
    × IsWrite sample (fresh sample) 128 (record_bytes sample 22 (256 ∷ []) (9 ∷ [])) x3
process_job_sends_example =
    process_job_sends sample sample_redis payload_codec pool tools config next_job 0 refl
      (initial sample) (fresh sample) server 0 0 0 (move_on ∷ []) [] (λ s. s) (at 128) one_sleep
      (256 ∷ []) (9 ∷ []) 256 (initial sample) (fresh sample) linked_server 256 128 0 turn refl refl
      ciphertext (fresh-IsSound sample) (omega arith)

-- The job at index 2 is marked as failed.
abbrev failed_server : Memory
failed_server =
    sample_redis.set_ex (zeropool_relayer_rs.Redis.job 3) (payload_codec.status_bytes failed) server

abbrev failed_jobs : Queue (Payload sample ℕ)
failed_jobs = link 3 "a" (mark 3 failed no_jobs)

abbrev last_server : Memory
last_server =
    with_mapping sample sample_redis payload_codec pool tools config job_three failed_server

abbrev failed_jobs_Shows : Shows sample_redis payload_codec last_server failed_jobs
failed_jobs_Shows =
    link-Shows sample_redis payload_codec failed_server (mark 3 failed no_jobs)
      (mark-Shows sample_redis payload_codec server no_jobs 3 failed no_jobs_Shows) 3 "a"

abbrev before_run : State
before_run =
    relayer sample sample_redis payload_codec pool three.tree_after three.transactions_after
      failed_server 0 0 0

abbrev after_run : State
after_run =
    relayer sample sample_redis payload_codec pool three.tree_after three.transactions_after
      last_server 0 0 0

abbrev sees_failure :
    FindsCancelled sample sample_redis payload_codec pool tools config 3
      job_three.payload.next_commit_index after_run
sees_failure = record {
  queue = failed_jobs;
  calm = record {
    tables = three.tree_after;
    transactions = three.transactions_after;
    server = last_server;
    state = refl;
    shows = failed_jobs_Shows;
  };
  is_cancelled = refl;
}

process_job-GivesUp_example :
    process_job sample sample_redis payload_codec pool tools config job_three [] (λ s. s) before_run
    ≡ (err job_cancelled, after_run)
process_job-GivesUp_example =
    process_job-GivesUp sample sample_redis payload_codec pool tools config job_three 0 refl
      three.tree_after three.transactions_after failed_server 0 0 0 [] [] (λ s. s) after_run arrived
      job_cancelled after_run (is_cancelled sees_failure)

abbrev cancelled_run :
    process_job sample sample_redis payload_codec pool tools config job_three [] (λ s. s) before_run
    ≡ (err job_cancelled, after_run)
cancelled_run =
    process_job-GivesUp sample sample_redis payload_codec pool tools config job_three 0 refl
      three.tree_after three.transactions_after failed_server 0 0 0 [] [] (λ s. s) after_run arrived
      job_cancelled after_run (is_cancelled sees_failure)

run_tx-rolls_back_example :
    (t' : Tables sample) × (x' : TxTables sample) × (sv' : Memory) × (run_tx sample sample_redis
        payload_codec pool tools config tree []
        (λ s. s)
        job_three
        before_run
      ≡ (ok tt, relayer sample sample_redis payload_codec pool t' x' sv' 0 0 0))
    × Represents sample t' (11 ∷ 22 ∷ [])
    × IsRollback sample three.transactions_after 256 x'
    × Shows sample_redis payload_codec sv' (mark 3 failed (cancel_later 3 failed_jobs))
run_tx-rolls_back_example =
    run_tx-rolls_back sample sample_redis payload_codec pool tools config tree job_three [] (λ s. s)
      before_run three.tree_after three.transactions_after last_server 0 0 0 failed_jobs
      failed_jobs_Shows defaults (11 ∷ 22 ∷ 33 ∷ []) 2 job_cancelled cancelled_run three.prev_index
      (omega arith) (omega arith) (omega arith) small (omega arith) three.in_step.transactions
      three.in_step.represents three.in_step.remembers

-- Two jobs at the indexes 0 and 1: the first sends and stores, then the second sends.
abbrev two_waiting : ℕ → Phase
two_waiting zero = waiting
two_waiting (suc zero) = waiting
two_waiting (suc (suc _)) = stored

abbrev both_wait : Pool
both_wait = record { pool_index = 0; phase = two_waiting }

abbrev first_sends : Pool
first_sends = record { pool_index = 0; phase = enter 0 sending two_waiting }

abbrev first_stored : Pool
first_stored = record { pool_index = 128; phase = enter 0 stored first_sends.phase }

abbrev second_sends : Pool
second_sends = record { pool_index = 128; phase = enter 1 sending first_stored.phase }

both_wait-Distinct : Distinct sample (λ i. i) both_wait
both_wait-Distinct zero zero hi hj e = refl
both_wait-Distinct zero (suc zero) hi hj e = absurd (omega (arith, e))
both_wait-Distinct (suc zero) zero hi hj e = absurd (omega (arith, e))
both_wait-Distinct (suc zero) (suc zero) hi hj e = refl
both_wait-Distinct zero (suc (suc j)) hi hj e = absurd (cc hj)
both_wait-Distinct (suc zero) (suc (suc j)) hi hj e = absurd (cc hj)
both_wait-Distinct (suc (suc i)) j hi hj e = absurd (cc hi)

both_wait_quiet : (k : ℕ) → two_waiting k ≢ sending
both_wait_quiet zero h = absurd (cc h)
both_wait_quiet (suc zero) h = absurd (cc h)
both_wait_quiet (suc (suc k)) h = absurd (cc h)

abbrev way : Reach sample (λ i. i) both_wait second_sends
way = next (next (next here (begin 0 refl refl)) (store 0 refl)) (begin 1 refl refl)

abbrev second : ℕ
second = 1

one_sender_example : (second ≡ second) × (second_sends.pool_index ≡ tx_position sample 1)
one_sender_example =
    one_sender sample (λ i. i) both_wait second_sends 1 1 both_wait-Distinct both_wait_quiet way
      refl refl
