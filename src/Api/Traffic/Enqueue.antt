-- ===== src/Api/Traffic/Enqueue.antt =====
-- What `enqueue_tx` of src/json_api.rs leaves behind, also where it fails.
use native.Mathlib.Nat.{mul-le-mul_right}
use mathlib.Core.List.{append-nil}
use zeropool_relayer_rs.Prelude.{
  ℕ, ◌+◌, ◌*◌, ◌^◌, ◌≤◌, ◌<◌, ◌≡◌, refl, ◌⊎◌, inl, inr, List, [], ◌∷◌, ◌++◌, length, length-append,
  replicate, arith,
}
use zeropool_relayer_rs.Exec.{ok}
use zeropool_relayer_rs.Exec.Leads.{Leads, Outcome-cases}
use zeropool_relayer_rs.Exec.Disk.{sound}
use zeropool_relayer_rs.Crates.{Crates}
use zeropool_relayer_rs.Redis.{Redis}
use zeropool_relayer_rs.Merkle.Storage.{Tables}
use zeropool_relayer_rs.Merkle.Tree.{MerkleTree, tree_height}
use zeropool_relayer_rs.Merkle.View.{HasDefaults}
use zeropool_relayer_rs.Merkle.Spec.{Represents, Remembers}
use zeropool_relayer_rs.Merkle.AddLeaf.{add_leaf-Represents}
use zeropool_relayer_rs.Merkle.History.{queries_answer}
use zeropool_relayer_rs.TxStorage.{TxTables, stride}
use zeropool_relayer_rs.TxStorage.Entries.{IsSound}
use zeropool_relayer_rs.TxStorage.Write.{next_of, push_lem}
use zeropool_relayer_rs.JobQueue
use zeropool_relayer_rs.JobQueue.{Codec}
use zeropool_relayer_rs.JobQueue.Queue.{Queue, Shows, enqueue}
use zeropool_relayer_rs.JobQueue.Steps.{push-Shows}
use zeropool_relayer_rs.Tx.{ParsedTxData}
use zeropool_relayer_rs.Config.{Config}
use zeropool_relayer_rs.Backend.{BlockchainBackend}
use zeropool_relayer_rs.Worker.{Payload, tx_position, prepare_job}
use zeropool_relayer_rs.Worker.Failure.{all_sound, position_lem}
use zeropool_relayer_rs.Worker.Prepare.{InStep, prepare_job-Prepared}
use zeropool_relayer_rs.Worker.Process.{Relayer}
use zeropool_relayer_rs.Worker.Await.{relayer}
use zeropool_relayer_rs.Api.{Validation}
use zeropool_relayer_rs.Api.Handlers.{enqueue_tx}
use zeropool_relayer_rs.Api.Traffic.{IsHealthy, Grown}

module _ (c : Crates) (r : Redis) {P : Type 0} (b : Codec (Payload c P))
    (bk : BlockchainBackend c P) (config : Config) (tree : MerkleTree c)
    (v : Validation c.Hash P) where
  open r use {Server}

  module _ (i rt : ℕ) (leaves : List c.Hash) where
    pub same_leaves :
        (s : Relayer c r b bk) → IsHealthy c r b bk i rt leaves s → Grown c r b bk i rt leaves s
    same_leaves s h = ([], omega arith, rw (append-nil leaves) h)

    module _ (defaults : HasDefaults c tree) (small : tree_height c ≤ 62)
        (bound : 2 ^ tree_height c * stride c + stride c < 2 ^ 64)
        (room : length leaves < 2 ^ tree_height c) where
      -- A transaction that is not pushed leaves its leaf.
      leaf_only :
          (t t1 : Tables c) (x : TxTables c) (sv : Server) (w : bk.World) (q : Queue (Payload c P))
          (h : c.Hash) (s : Relayer c r b bk)
          → s ≡ relayer c r b bk t1 x sv w i rt
          → Represents c t1 (leaves ++ h ∷ [])
          → Remembers c t1 (leaves ++ h ∷ [])
          → IsSound c x
          → next_of c x ≤ length leaves * stride c
          → Shows r b sv q
          → Grown c r b bk i rt leaves s
      leaf_only t t1 x sv w q h s e rep rem tx_sound low shows =
          let more =
            mul-le-mul_right {m = length leaves} {n = length (leaves ++ h ∷ [])} (stride c)
              (omega (arith, length-append leaves (h ∷ []))) in
          (
            h ∷ [],
            omega arith,
            record {
              tables = t1;
              transactions = x;
              server = sv;
              world = w;
              queue = q;
              state = e;
              represents = rep;
              remembers = rem;
              tx_sound = tx_sound;
              not_ahead = omega (arith, more, low);
              shows = shows;
            },
          )

      enqueued :
          (tx : ParsedTxData c P) (t t1 : Tables c) (x x1 : TxTables c) (sv sv1 : Server)
          (w : bk.World) (payload : Payload c P) (id : ℕ)
          → prepare_job c r b tree bk.extract_ciphertext tx (all_sound c r b t x sv)
            ≡ (ok payload, all_sound c r b t1 x1 sv)
          → JobQueue.push r b payload (sound sv) ≡ (ok id, sound sv1)
          → (enqueue_tx c r b bk tree v config tx (relayer c r b bk t x sv w i rt)).1
            ≡ relayer c r b bk t1 x1 sv1 w i rt
      unfolding enqueue_tx
      enqueued tx t t1 x x1 sv sv1 w payload id prepared pushed = rw (prepared, pushed) refl

      level : (m n : ℕ) → m ≤ n → (m < n) ⊎ (m ≡ n)
      level m n h = omega (arith, h)

      enqueue_at :
          (tx : ParsedTxData c P) (t : Tables c) (x : TxTables c) (sv : Server) (w : bk.World)
          (q : Queue (Payload c P))
          → Represents c t leaves
          → Remembers c t leaves
          → IsSound c x
          → next_of c x ≤ length leaves * stride c
          → Shows r b sv q
          → Grown c r b bk i rt leaves
              ((enqueue_tx c r b bk tree v config tx (relayer c r b bk t x sv w i rt)).1)
      unfolding enqueue_tx prepare_job
      enqueue_at tx t x sv w q rep rem tx_sound low shows =
          let n : ℕ = length leaves in
          let before = queries_answer c tree defaults t leaves rep in
          let (t1, added, rep1, rem1) =
            add_leaf-Represents c small tree defaults leaves room t tx.out_commit rep rem in
          let below =
            mul-le-mul_right {m = n} {n = 2 ^ tree_height c} (stride c) (omega (arith, room)) in
          let position : tx_position c n ≡ n * stride c =
            position_lem c r b n (omega (arith, below, bound)) in
          let alone : (s : Relayer c r b bk)
              → s ≡ relayer c r b bk t1 x sv w i rt
              → Grown c r b bk i rt leaves s =
            λ s e. leaf_only t t1 x sv w q tx.out_commit s e rep1 rem1 tx_sound low shows in
          elim (Outcome-cases (bk.extract_ciphertext tx.memo tx.tx_type)) [
            | inl (text, extracted) ↦ elim (level (next_of c x) (n * stride c) low) [
              | inl behind ↦
                  let no_push =
                    (push_lem c x tx_sound (n * stride c) tx.out_commit (replicate 32 0) text).1
                      behind in
                  alone _ (rw (before.0, before.1, added, extracted, position, no_push) refl)
              | inr next ↦
                  let step : InStep c r b t x leaves = record {
                    represents = rep;
                    remembers = rem;
                    transactions = tx_sound;
                    next = next;
                  } in
                  let p =
                    prepare_job-Prepared c r b tree defaults t x sv leaves step
                      bk.extract_ciphertext tx text extracted room small
                      (omega (arith, below, bound)) in
                  let (sv', pushed, shows') = push-Shows r b sv q shows p.payload in
                  (
                    tx.out_commit ∷ [],
                    omega arith,
                    record {
                      tables = p.tree_after;
                      transactions = p.transactions_after;
                      server = sv';
                      world = w;
                      queue = enqueue p.payload q;
                      state =
                          enqueued tx t p.tree_after x p.transactions_after sv sv' w p.payload _
                            p.run pushed;
                      represents = p.in_step.represents;
                      remembers = p.in_step.remembers;
                      tx_sound = p.in_step.transactions;
                      not_ahead = omega (arith, p.in_step.next);
                      shows = shows';
                    },
                  )
            ]
            | inr (inl (error, refused)) ↦ alone _ (rw (before.0, before.1, added, refused) refl)
            | inr (inr refused) ↦ alone _ (rw (before.0, before.1, added, refused) refl)
          ]

      pub enqueue-Leads :
          (tx : ParsedTxData c P)
          → Leads
              (IsHealthy c r b bk i rt leaves)
              (Grown c r b bk i rt leaves)
              (enqueue_tx c r b bk tree v config tx)
      enqueue-Leads tx = record {
        at = λ s h. rw (h.state) (
            enqueue_at tx h.tables h.transactions h.server h.world h.queue h.represents h.remembers
              h.tx_sound h.not_ahead h.shows);
      }
