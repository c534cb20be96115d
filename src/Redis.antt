-- ===== src/Redis.antt =====
-- The Redis server and the `bincode` codec, as far as src/job_queue.rs uses them. Both are
-- parameters, with the documented behaviour of the commands as laws. The time until a key expires
-- (one week) is longer than what is modelled.
use zeropool_relayer_rs.Prelude.{
  ℕ, ◌+◌, ◌≡◌, ◌==◌, Bool, false, Option, some, List, [], ◌∷◌, ◌++◌, String, if◌then◌else◌,
}
use text.Mathlib.Text.{◌==◌ as str_eq}

-- The keys "job:{id}" and "job_mapping:{key}".
pub data Key : Type 0 where
  job : ℕ → Key
  job_mapping : String → Key

abbrev pub same_key : Key → Key → Bool
same_key (job i) (job j) = i == j
same_key (job i) (job_mapping t) = false
same_key (job_mapping s) (job j) = false
same_key (job_mapping s) (job_mapping t) = str_eq s t

pub record Redis : Type 1 where
  pub Server : Type 0
  -- INCR job_counter 1
  pub job_counter : Server → ℕ
  pub incr : Server → Server
  -- RPUSH, LRANGE 0 -1 and BLPOP on the list "jobs"; a BLPOP on the empty list waits.
  pub jobs : Server → List (List ℕ)
  pub rpush : List ℕ → Server → Server
  pub lpop : Server → Server
  -- SETEX and GET
  pub set_ex : Key → List ℕ → Server → Server
  pub get : Key → Server → Option (List ℕ)
  pub job_counter-incr : (s : Server) → job_counter (incr s) ≡ job_counter s + 1
  pub jobs-incr : (s : Server) → jobs (incr s) ≡ jobs s
  pub get-incr : (k : Key) (s : Server) → get k (incr s) ≡ get k s
  pub job_counter-rpush : (b : List ℕ) (s : Server) → job_counter (rpush b s) ≡ job_counter s
  pub jobs-rpush : (b : List ℕ) (s : Server) → jobs (rpush b s) ≡ jobs s ++ b ∷ []
  pub get-rpush : (k : Key) (b : List ℕ) (s : Server) → get k (rpush b s) ≡ get k s
  pub jobs-lpop : (b : List ℕ) (l : List (List ℕ)) (s : Server) → jobs s ≡ b ∷ l → jobs (lpop s) ≡ l
  pub job_counter-lpop : (s : Server) → job_counter (lpop s) ≡ job_counter s
  pub get-lpop : (k : Key) (s : Server) → get k (lpop s) ≡ get k s
  pub job_counter-set_ex :
      (k : Key) (b : List ℕ) (s : Server) → job_counter (set_ex k b s) ≡ job_counter s
  pub jobs-set_ex : (k : Key) (b : List ℕ) (s : Server) → jobs (set_ex k b s) ≡ jobs s
  pub get-set_ex :
      (j k : Key) (b : List ℕ) (s : Server)
      → get j (set_ex k b s) ≡ (if same_key k j then some b else get j s)
