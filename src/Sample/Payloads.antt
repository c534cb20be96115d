-- ===== src/Sample/Payloads.antt =====
-- A codec for jobs of the worker over the sample crates: lists with a mark before each item.
use zeropool_relayer_rs.Prelude.{
  ℕ, zero, suc, ◌≡◌, refl, Bool, true, false, Option, none, some, List, [], ◌∷◌,
}
use zeropool_relayer_rs.Merkle.Tree.{MerkleProof}
use zeropool_relayer_rs.JobQueue.{Codec, Job}
use zeropool_relayer_rs.Worker.{Payload}
use zeropool_relayer_rs.Sample.{sample}
use zeropool_relayer_rs.Sample.Server.{sample_codec}
use zeropool_relayer_rs.Tx.{TxType, deposit, transfer, withdraw}

abbrev and_then : {A B : Type 0} → Option A → (A → Option B) → Option B
and_then none f = none
and_then (some a) f = f a

abbrev put_list : List ℕ → List ℕ → List ℕ
put_list [] rest = 0 ∷ rest
put_list (x ∷ l) rest = 1 ∷ x ∷ put_list l rest

abbrev with_item : ℕ → Option (List ℕ × List ℕ) → Option (List ℕ × List ℕ)
with_item x none = none
with_item x (some (l, rest)) = some (x ∷ l, rest)

abbrev get_list : List ℕ → Option (List ℕ × List ℕ)
get_list (zero ∷ rest) = some ([], rest)
get_list (suc _ ∷ x ∷ rest) = with_item x (get_list rest)
get_list _ = none

get_list-put_list : (l rest : List ℕ) → get_list (put_list l rest) ≡ some (l, rest)
get_list-put_list [] rest = refl
get_list-put_list (x ∷ l) rest = rw (get_list-put_list l rest) refl

abbrev put_bools : List Bool → List ℕ → List ℕ
put_bools [] rest = 0 ∷ rest
put_bools (false ∷ l) rest = 1 ∷ put_bools l rest
put_bools (true ∷ l) rest = 2 ∷ put_bools l rest

abbrev with_bool : Bool → Option (List Bool × List ℕ) → Option (List Bool × List ℕ)
with_bool x none = none
with_bool x (some (l, rest)) = some (x ∷ l, rest)

abbrev get_bools : List ℕ → Option (List Bool × List ℕ)
get_bools (zero ∷ rest) = some ([], rest)
get_bools (suc zero ∷ rest) = with_bool false (get_bools rest)
get_bools (suc (suc _) ∷ rest) = with_bool true (get_bools rest)
get_bools [] = none

get_bools-put_bools :
    (l : List Bool) (rest : List ℕ) → get_bools (put_bools l rest) ≡ some (l, rest)
get_bools-put_bools [] rest = refl
get_bools-put_bools (false ∷ l) rest = rw (get_bools-put_bools l rest) refl
get_bools-put_bools (true ∷ l) rest = rw (get_bools-put_bools l rest) refl

abbrev put_type : TxType → ℕ
put_type deposit = 0
put_type transfer = 1
put_type withdraw = 2

abbrev get_type : ℕ → TxType
get_type zero = deposit
get_type (suc zero) = transfer
get_type (suc (suc _)) = withdraw

get_type-put_type : (y : TxType) → get_type (put_type y) ≡ y
get_type-put_type deposit = refl
get_type-put_type transfer = refl
get_type-put_type withdraw = refl

abbrev put_proof : MerkleProof sample → List ℕ → List ℕ
put_proof p rest = put_list p.sibling (put_bools p.path rest)

abbrev get_proof : List ℕ → Option (MerkleProof sample × List ℕ)
get_proof l =
    and_then (get_list l)
      (λ a. and_then (get_bools a.1) (λ p. some (record { sibling = a.0; path = p.0 }, p.1)))

get_proof-put_proof :
    (p : MerkleProof sample) (rest : List ℕ) → get_proof (put_proof p rest) ≡ some (p, rest)
get_proof-put_proof p rest =
    rw (get_list-put_list p.sibling (put_bools p.path rest), get_bools-put_bools p.path rest) refl

abbrev put_job : Job (Payload sample ℕ) → List ℕ
put_job j =
    let m = j.payload in
    j.id
    ∷ put_type m.tx.tx_type
    ∷ m.tx.proof
    ∷ m.tx.delta
    ∷ m.tx.out_commit
    ∷ m.tx.nullifier
    ∷ m.tree_pub.root_before
    ∷ m.tree_pub.root_after
    ∷ m.tree_pub.leaf
    ∷ m.tree_sec.prev_leaf
    ∷ m.next_commit_index
    ∷ m.prev_commit_index
    ∷ put_list m.tx.memo (
        put_list m.tx.extra_data
          (put_proof m.tree_sec.proof_filled (put_proof m.tree_sec.proof_free [])))

abbrev get_job : List ℕ → Option (Job (Payload sample ℕ))
get_job (id ∷ y ∷ proof ∷ delta ∷ out ∷ nul ∷ before ∷ after ∷ lf ∷ last ∷ next ∷ prev ∷ rest) =
    and_then (get_list rest) (λ memo. and_then (get_list memo.1) (λ extra.
      and_then (get_proof extra.1) (λ filled. and_then (get_proof filled.1) (λ free. some (record {
        id = id;
        payload = record {
          tx = record {
            tx_type = get_type y;
            proof = proof;
            delta = delta;
            out_commit = out;
            nullifier = nul;
            memo = memo.0;
            extra_data = extra.0;
          };
          tree_pub = record { root_before = before; root_after = after; leaf = lf };
          tree_sec = record { proof_filled = filled.0; proof_free = free.0; prev_leaf = last };
          next_commit_index = next;
          prev_commit_index = prev;
        };
      })))))
get_job _ = none

pub get_job-put_job : (j : Job (Payload sample ℕ)) → get_job (put_job j) ≡ some j
get_job-put_job j =
    let m = j.payload in
    let last = put_proof m.tree_sec.proof_free [] in
    let both = put_proof m.tree_sec.proof_filled last in
    rw
      (
        get_list-put_list m.tx.memo (put_list m.tx.extra_data both),
        get_list-put_list m.tx.extra_data both,
        get_proof-put_proof m.tree_sec.proof_filled last,
        get_proof-put_proof m.tree_sec.proof_free [],
        get_type-put_type m.tx.tx_type,
      )
      refl

abbrev pub payload_codec : Codec (Payload sample ℕ)
payload_codec = record {
  status_bytes = sample_codec.status_bytes;
  read_status = sample_codec.read_status;
  read_status-status_bytes = sample_codec.read_status-status_bytes;
  job_bytes = put_job;
  read_job = get_job;
  read_job-job_bytes = get_job-put_job;
  id_bytes = sample_codec.id_bytes;
  read_id = sample_codec.read_id;
  read_id-id_bytes = sample_codec.read_id-id_bytes;
  read_id-job_bytes = λ j. refl;
}
