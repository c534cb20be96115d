-- ===== src/Sample/Server.antt =====
-- A Redis server as a record of tables, and a codec for jobs with a number as payload.
use zeropool_relayer_rs.Prelude.{
  ℕ, zero, suc, ◌+◌, ◌≡◌, refl, ap, Option, none, some, List, [], ◌∷◌, ◌++◌, if◌then◌else◌,
}
use zeropool_relayer_rs.Redis.{Redis, Key, same_key}
use zeropool_relayer_rs.JobQueue.{Codec, Job, JobStatus, pending, in_progress, completed, failed}

pub record Memory : Type 0 where
  pub last : ℕ
  pub queue : List (List ℕ)
  pub store : Key → Option (List ℕ)

abbrev rest_of : List (List ℕ) → List (List ℕ)
rest_of [] = []
rest_of (_ ∷ l) = l

abbrev pub sample_redis : Redis
sample_redis = record {
  Server = Memory;
  job_counter = λ m. m.last;
  incr = λ m. record m { last = m.last + 1 };
  jobs = λ m. m.queue;
  rpush = λ bytes m. record m { queue = m.queue ++ bytes ∷ [] };
  lpop = λ m. record m { queue = rest_of m.queue };
  set_ex = λ k bytes m. record m { store = λ j. if same_key k j then some bytes else m.store j };
  get = λ k m. m.store k;
  job_counter-incr = λ m. refl;
  jobs-incr = λ m. refl;
  get-incr = λ k m. refl;
  job_counter-rpush = λ bytes m. refl;
  jobs-rpush = λ bytes m. refl;
  get-rpush = λ k bytes m. refl;
  jobs-lpop = λ bytes l m e. ap rest_of e;
  job_counter-lpop = λ m. refl;
  get-lpop = λ k m. refl;
  job_counter-set_ex = λ k bytes m. refl;
  jobs-set_ex = λ k bytes m. refl;
  get-set_ex = λ j k bytes m. refl;
}

abbrev status_number : JobStatus → List ℕ
status_number pending = 0 ∷ []
status_number in_progress = 1 ∷ []
status_number completed = 2 ∷ []
status_number failed = 3 ∷ []

abbrev status_of_number : List ℕ → Option JobStatus
status_of_number (zero ∷ []) = some pending
status_of_number (suc zero ∷ []) = some in_progress
status_of_number (suc (suc zero) ∷ []) = some completed
status_of_number (suc (suc (suc zero)) ∷ []) = some failed
status_of_number _ = none

pub status_of_number-status_number : (s : JobStatus) → status_of_number (status_number s) ≡ some s
status_of_number-status_number pending = refl
status_of_number-status_number in_progress = refl
status_of_number-status_number completed = refl
status_of_number-status_number failed = refl

abbrev two_numbers : List ℕ → Option (Job ℕ)
two_numbers (i ∷ n ∷ _) = some (record { id = i; payload = n })
two_numbers _ = none

abbrev one_number : List ℕ → Option ℕ
one_number (i ∷ _) = some i
one_number _ = none

abbrev pub sample_codec : Codec ℕ
sample_codec = record {
  status_bytes = status_number;
  read_status = status_of_number;
  read_status-status_bytes = status_of_number-status_number;
  job_bytes = λ j. j.id ∷ j.payload ∷ [];
  read_job = two_numbers;
  read_job-job_bytes = λ j. refl;
  id_bytes = λ i. i ∷ [];
  read_id = one_number;
  read_id-id_bytes = λ i. refl;
  read_id-job_bytes = λ j. refl;
}
