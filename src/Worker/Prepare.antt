-- ===== src/Worker/Prepare.antt =====
-- `prepare_job` of src/tx_worker.rs where no call fails.
use native.Mathlib.Nat.{suc-mul}
use native.Mathlib.Numerals.{add-one}
use zeropool_relayer_rs.Prelude.{
  ℕ, ◌+◌, ◌-◌, ◌*◌, ◌%◌, ◌^◌, ◌≤◌, ◌<◌, ◌≡◌, refl, sym, ap, ◌∙◌, false, leb, List, [], ◌∷◌, ◌++◌,
  length, length-append, replicate, arith,
}
use zeropool_relayer_rs.Exec.{Outcome, ok, err, panic, invalid_index}
use zeropool_relayer_rs.Exec.Disk.{sound}
use zeropool_relayer_rs.Crates.{Crates}
use zeropool_relayer_rs.Redis.{Redis}
use zeropool_relayer_rs.Merkle.Storage.{Tables}
use zeropool_relayer_rs.Merkle.Tree
use zeropool_relayer_rs.Merkle.Tree.{MerkleTree, tree_height, MerkleProof}
use zeropool_relayer_rs.Merkle.View.{HasDefaults}
use zeropool_relayer_rs.Merkle.Spec.{Represents, Remembers, root_of, leaf_at}
use zeropool_relayer_rs.Merkle.AddLeaf.{add_leaf-Represents}
use zeropool_relayer_rs.Merkle.History.{queries_answer}
use zeropool_relayer_rs.Merkle.Proof.{proof_root-zp_merkle_proof}
use zeropool_relayer_rs.TxStorage
use zeropool_relayer_rs.TxStorage.{TxTables, stride, record_bytes}
use zeropool_relayer_rs.TxStorage.Entries.{IsSound}
use zeropool_relayer_rs.TxStorage.Write.{IsWrite, next_of, push_lem}
use zeropool_relayer_rs.JobQueue.{Codec}
use zeropool_relayer_rs.Worker.{Payload, tx_position, prepare_job}
use zeropool_relayer_rs.Worker.Failure.{all_sound}
use zeropool_relayer_rs.Tx.{ParsedTxData, TxType}
use zeropool_relayer_rs.Backend.{extract_ciphertext_from_memo, memo_offset}

pub next_product : (n m : ℕ) → (n + 1) * m ≡ n * m + m
next_product n m = ap (λ k. k * m) (add-one n) ∙ suc-mul n m

pub next_position : (n m : ℕ) → n * m + m < 2 ^ 64 → (n * m + m) % 2 ^ 64 ≡ (n + 1) * m
next_position n m bound =
    let small : (n * m + m) % 2 ^ 64 ≡ n * m + m = omega (arith, bound) in
    small ∙ sym (next_product n m)

extract_short :
    (memo : List ℕ) (tx_type : TxType)
    → length memo < memo_offset tx_type
    → extract_ciphertext_from_memo memo tx_type ≡ panic
unfolding extract_ciphertext_from_memo
extract_short memo tx_type short =
    let e : leb (memo_offset tx_type) (length memo) ≡ false = ground arith in rw e refl

module _ (c : Crates) (r : Redis) {P : Type 0} (b : Codec (Payload c P)) where
  open r use {Server}

  -- The tree and the transaction storage are in step: the next transaction belongs to the next leaf.
  pub record InStep (t : Tables c) (x : TxTables c) (leaves : List c.Hash) : Type 0 where
    pub represents : Represents c t leaves
    pub remembers : Remembers c t leaves
    pub transactions : IsSound c x
    pub next : next_of c x ≡ length leaves * stride c

  -- The steps of `prepare_job` one after the other.
  prepare_run :
      (tree : MerkleTree c) (t t' : Tables c) (x x' : TxTables c) (s : Server)
      (extract : List ℕ → TxType → Outcome (List ℕ)) (tx : ParsedTxData c P) (text : List ℕ) (n : ℕ)
      {root_before root_after prev_leaf : c.Hash} {proof_filled proof_free : MerkleProof c}
      → Tree.root c tree (sound t) ≡ (ok root_before, sound t)
      → Tree.num_leaves c tree (sound t) ≡ (ok n, sound t)
      → Tree.add_leaf c tree tx.out_commit (sound t) ≡ (ok tt, sound t')
      → extract tx.memo tx.tx_type ≡ ok text
      → TxStorage.push c (tx_position c n) tx.out_commit (replicate 32 0) text (sound x)
        ≡ (ok tt, sound x')
      → Tree.root c tree (sound t') ≡ (ok root_after, sound t')
      → Tree.zp_merkle_proof c tree (n - 1) (sound t') ≡ (ok proof_filled, sound t')
      → Tree.zp_merkle_proof c tree n (sound t') ≡ (ok proof_free, sound t')
      → Tree.leaf c tree (n - 1) (sound t') ≡ (ok prev_leaf, sound t')
      → prepare_job c r b tree extract tx (all_sound c r b t x s) ≡ (
        ok (record {
          tx = tx;
          tree_pub = record {
            root_before = root_before;
            root_after = root_after;
            leaf = tx.out_commit;
          };
          tree_sec = record {
            proof_filled = proof_filled;
            proof_free = proof_free;
            prev_leaf = prev_leaf;
          };
          next_commit_index = n;
          prev_commit_index = n - 1;
        }),
        all_sound c r b t' x' s,
      )
  unfolding prepare_job
  prepare_run tree t t' x x' s extract tx text n e1 e2 e3 e4 e5 e6 e7 e8 e9 =
      rw (e1, e2, e3, e4, e5, e6, e7, e8, e9) refl

  module _ (tree : MerkleTree c) (defaults : HasDefaults c tree) (t : Tables c) (x : TxTables c)
      (s : Server) (leaves : List c.Hash) (step : InStep t x leaves)
      (extract : List ℕ → TxType → Outcome (List ℕ)) (tx : ParsedTxData c P) where
    -- What `prepare_job` leaves behind and gives to the job.
    pub record Prepared (text : List ℕ) : Type 0 where
      pub tree_after : Tables c
      pub transactions_after : TxTables c
      pub payload : Payload c P
      pub run :
          prepare_job c r b tree extract tx (all_sound c r b t x s)
          ≡ (ok payload, all_sound c r b tree_after transactions_after s)
      pub in_step : InStep tree_after transactions_after (leaves ++ tx.out_commit ∷ [])
      pub written :
          IsWrite c x
            (length leaves * stride c)
            (record_bytes c tx.out_commit (replicate 32 0) text)
            transactions_after
      pub same_tx : payload.tx ≡ tx
      pub root_before : payload.tree_pub.root_before ≡ root_of c leaves
      pub root_after : payload.tree_pub.root_after ≡ root_of c (leaves ++ tx.out_commit ∷ [])
      pub prev_leaf :
          payload.tree_sec.prev_leaf ≡ leaf_at c (leaves ++ tx.out_commit ∷ []) (length leaves - 1)
      pub next_index : payload.next_commit_index ≡ length leaves
      pub prev_index : payload.prev_commit_index ≡ length leaves - 1

    -- The tree holds a list of leaves and its historic roots, the transaction storage is sound and
    -- its next index is that of the next leaf, the backend finds the ciphertext, the tree is not
    -- full and of a height of at most 62, the positions fit in 64 bits, and no call fails. Then
    -- `prepare_job` succeeds, all this holds again with the commitment as a further leaf, the
    -- transaction is written at its position with 32 zero bytes for the hash, the queue is not
    -- touched, and the payload has the transaction, the roots before and after, the leaf before,
    -- and the indexes of the two leaves.
    pub prepare_job-Prepared :
        (text : List ℕ)
        → extract tx.memo tx.tx_type ≡ ok text
        → length leaves < 2 ^ tree_height c
        → tree_height c ≤ 62
        → length leaves * stride c + stride c < 2 ^ 64
        → Prepared text
    prepare_job-Prepared text extracted room small bound =
        let n : ℕ = length leaves in
        let more : List c.Hash = leaves ++ tx.out_commit ∷ [] in
        let longer : length more ≡ n + 1 = length-append leaves (tx.out_commit ∷ []) in
        let before = queries_answer c tree defaults t leaves step.represents in
        let (t', run_add, rep, rem) =
          add_leaf-Represents c small tree defaults leaves room t tx.out_commit step.represents
            step.remembers in
        let after = queries_answer c tree defaults t' more rep in
        let (x', run_push, w) =
          (push_lem c x step.transactions (n * stride c) tx.out_commit (replicate 32 0) text).0
            (omega (arith, step.next)) in
        let prev_room : n - 1 < 2 ^ tree_height c = omega (arith, room) in
        let (p1, run_p1, q1) =
          proof_root-zp_merkle_proof c tree defaults t' more (n - 1) rep prev_room in
        let (p2, run_p2, q2) = proof_root-zp_merkle_proof c tree defaults t' more n rep room in
        let position : tx_position c n ≡ n * stride c = omega (arith, bound) in
        let push_there =
          ap (λ k. TxStorage.push c k tx.out_commit (replicate 32 0) text (sound x)) position
          ∙ run_push in
        record {
          tree_after = t';
          transactions_after = x';
          payload = _;
          run =
              prepare_run tree t t' x x' s extract tx text n before.0 before.1 run_add extracted
                push_there after.0 run_p1 run_p2 (after.2 (n - 1) prev_room);
          in_step = record {
            represents = rep;
            remembers = rem;
            transactions = w.sound_after;
            next = w.next ∙ next_position n (stride c) bound ∙ ap (λ k. k * stride c) (sym longer);
          };
          written = w;
          same_tx = refl;
          root_before = refl;
          root_after = refl;
          prev_leaf = refl;
          next_index = refl;
          prev_index = refl;
        }

  module _ (tree : MerkleTree c) (defaults : HasDefaults c tree) (t : Tables c) (x : TxTables c)
      (s : Server) (leaves : List c.Hash) (step : InStep t x leaves)
      (tx later : ParsedTxData c P) where
    abbrev text_of : List ℕ → TxType → Outcome (List ℕ)
    text_of = extract_ciphertext_from_memo

    -- A tree and a transaction storage are in step, with room for two more leaves, a height of at
    -- most 62, a positive stride and positions that fit in 64 bits, and no call fails.
    -- `prepare_job` with a memo that is shorter than the offset of its type panics after it has
    -- added the leaf, and has not added the transaction; a further `prepare_job` with a memo that
    -- is long enough is then refused for its index.
    pub short_memo :
        (text : List ℕ)
        → length tx.memo < memo_offset tx.tx_type
        → text_of later.memo later.tx_type ≡ ok text
        → length leaves + 1 < 2 ^ tree_height c
        → tree_height c ≤ 62
        → 0 < stride c
        → length leaves * stride c + stride c < 2 ^ 64
        → (t1 t2 : Tables c) × (prepare_job c r b tree text_of tx (all_sound c r b t x s)
            ≡ (panic, all_sound c r b t1 x s))
          × Represents c t1 (leaves ++ tx.out_commit ∷ [])
          × (prepare_job c r b tree text_of later (all_sound c r b t1 x s) ≡ (
            err (invalid_index (length leaves * stride c) ((length leaves + 1) * stride c)),
            all_sound c r b t2 x s,
          ))
    unfolding prepare_job
    short_memo text short extracted room small positive bound =
        let n : ℕ = length leaves in
        let more : List c.Hash = leaves ++ tx.out_commit ∷ [] in
        let longer : length more ≡ n + 1 = length-append leaves (tx.out_commit ∷ []) in
        let before = queries_answer c tree defaults t leaves step.represents in
        let (t1, add1, rep1, rem1) =
          add_leaf-Represents c small tree defaults leaves (omega arith) t tx.out_commit
            step.represents step.remembers in
        let between = queries_answer c tree defaults t1 more rep1 in
        let (t2, add2, rep2, rem2) =
          add_leaf-Represents c small tree defaults more (omega (arith, longer)) t1 later.out_commit
            rep1 rem1 in
        let too_short : text_of tx.memo tx.tx_type ≡ panic =
          extract_short tx.memo tx.tx_type short in
        let position : tx_position c (length more) ≡ (n + 1) * stride c =
          ap (λ k. (k * stride c) % 2 ^ 64) longer
          ∙ omega (arith, bound, next_product n (stride c)) in
        let refused =
          (push_lem c x step.transactions ((n + 1) * stride c) later.out_commit (replicate 32 0)
              text).1
            (omega (arith, step.next, positive, next_product n (stride c))) in
        (
          t1,
          t2,
          rw (before.0, before.1, add1, too_short) refl,
          rep1,
          rw (between.0, between.1, add2, extracted, position, refused)
              (ap (λ k. (err (invalid_index k ((n + 1) * stride c)), all_sound c r b t2 x s))
                step.next),
        )
