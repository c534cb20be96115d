-- ===== src/Api/Backlog/Drain.antt =====
-- As many rounds of the worker (src/tx_worker.rs) as jobs wait in line.
use native.Mathlib.Nat.{mul-le-mul_right}
use mathlib.Core.List.{append-nil, append_assoc}
use zeropool_relayer_rs.Prelude.{
  ℕ, zero, suc, ◌+◌, ◌*◌, ◌%◌, ◌^◌, ◌≤◌, ◌<◌, ◌≡◌, refl, sym, ap, ◌∙◌, true, false, some, List, [],
  ◌∷◌, ◌++◌, ◌==◌, ==_iff, length, length-append, arith,
}
use zeropool_relayer_rs.Exec.{ok, bind_ok}
use zeropool_relayer_rs.Crates.{Crates}
use zeropool_relayer_rs.Redis.{Redis}
use zeropool_relayer_rs.Merkle.Storage.{Tables}
use zeropool_relayer_rs.Merkle.Tree.{MerkleTree, tree_height}
use zeropool_relayer_rs.Merkle.Spec.{root_of}
use zeropool_relayer_rs.TxStorage.{TxTables, stride}
use zeropool_relayer_rs.TxStorage.Entries.{IsSound}
use zeropool_relayer_rs.TxStorage.Write.{next_of}
use zeropool_relayer_rs.JobQueue.{Codec, Job, completed}
use zeropool_relayer_rs.JobQueue.Queue.{Queue, Shows}
use zeropool_relayer_rs.Config.{Config}
use zeropool_relayer_rs.Backend.{BlockchainBackend}
use zeropool_relayer_rs.Worker.{Payload}
use zeropool_relayer_rs.Worker.Failure.{position_lem}
use zeropool_relayer_rs.Worker.Prepare.{next_position}
use zeropool_relayer_rs.Worker.Process.{Tools, is_turn}
use zeropool_relayer_rs.Worker.Await.{relayer}
use zeropool_relayer_rs.Worker.Run.{worker_round}
use zeropool_relayer_rs.Worker.Round.{done_queue, worker_round-completes}
use zeropool_relayer_rs.Api.{Validation}
use zeropool_relayer_rs.Api.Backlog.{IsWilling, IsNextJob, Lined, none_left, in_line, run_rounds}

module _ (c : Crates) (r : Redis) {P : Type 0} (b : Codec (Payload c P))
    (bk : BlockchainBackend c P) (tools : Tools c P) (config : Config) (tree : MerkleTree c)
    (v : Validation c.Hash P) (bound : 2 ^ tree_height c * stride c + stride c < 2 ^ 64)
    (willing : IsWilling c r b bk tools config tree v) where
  open r use {Server}

  -- The position of the leaf after these.
  abbrev pub position : List c.Hash → ℕ
  position leaves = length leaves * stride c

  -- The index and the root of the pool where these leaves were sent.
  abbrev root_number : List c.Hash → ℕ
  root_number leaves = tools.to_u256 (root_of c leaves)

  -- A round for the first job in line.
  pub record Round (t : Tables c) (x : TxTables c) (sv : Server) (q : Queue (Payload c P))
      (w : bk.World) (rt : ℕ) (before : List c.Hash) (j : Job (Payload c P))
      (jobs : List (Job (Payload c P))) (h : c.Hash) : Type 0 where
    pub transactions : TxTables c
    pub server : Server
    pub world : bk.World
    pub run :
        worker_round c r b bk tools config tree []
          (λ s. s)
          (relayer c r b bk t x sv w (position before) rt)
        ≡ (
          ok tt,
          relayer c r b bk t transactions server world
              (position (before ++ h ∷ []))
              (root_number (before ++ h ∷ [])),
        )
    pub tx_sound : IsSound c transactions
    pub next : next_of c transactions ≡ position (before ++ h ∷ [])
    pub shows : Shows r b server (done_queue c r b bk tools config tree j jobs q)

  pub first-Round :
      (t : Tables c) (x : TxTables c) (sv : Server) (q : Queue (Payload c P)) (w : bk.World)
      (rt id : ℕ) (before : List c.Hash) (j : Job (Payload c P)) (jobs : List (Job (Payload c P)))
      (h : c.Hash)
      → IsNextJob c r b bk tools config tree v before id j h
      → IsSound c x
      → Shows r b sv q
      → q.waiting ≡ j ∷ jobs
      → length before < 2 ^ tree_height c
      → Round t x sv q w rt before j jobs h
  first-Round t x sv q w rt id before j jobs h n tx_sound shows front room =
      let k : ℕ = j.payload.next_commit_index in
      let below =
        mul-le-mul_right {m = length before} {n = 2 ^ tree_height c} (stride c)
          (omega (arith, room)) in
      let fits : position before + stride c < 2 ^ 64 = omega (arith, below, bound) in
      let here : position before < 2 ^ 64 = omega (arith, fits) in
      let there : k * stride c ≡ position before = ap (λ z. z * stride c) n.index in
      let longer : length (before ++ h ∷ []) ≡ length before + 1 = length-append before (h ∷ []) in
      let turn : is_turn c (position before) k ≡ true =
        ap (λ z. is_turn c (position before) z) n.index
        ∙ (==_iff (position before) _).1 (sym (position_lem c r b (length before) here)) in
      let (tree_proof, proved) = willing.proves j.payload in
      let (tx_hash, w', sent) = willing.sends _ w in
      let (x', sv', run, written, shown) =
        worker_round-completes c r b bk tools config tree j jobs q tree_proof t x sv w w'
          (position before) rt tx_hash n.text shows front proved turn sent n.extracted tx_sound
          (rw there here) in
      let after : (position before + stride c) % 2 ^ 64 ≡ position (before ++ h ∷ []) =
        next_position (length before) (stride c) fits ∙ ap (λ z. z * stride c) (sym longer) in
      record {
        transactions = x';
        server = sv';
        world = w';
        run =
            run
            ∙ ap
                (λ z. (
                  ok tt,
                  relayer c r b bk t x' sv' w' z (tools.to_u256 j.payload.tree_pub.root_after),
                ))
                after
            ∙ ap
                (λ z. (
                  ok tt,
                  relayer c r b bk t x' sv' w' (position (before ++ h ∷ [])) (tools.to_u256 z),
                ))
                n.root_after;
        tx_sound = written.sound_after;
        next = written.next ∙ ap (λ z. (z + stride c) % 2 ^ 64) there ∙ after;
        shows = shown;
      }

  -- The jobs with these ids are completed, and the others keep their status.
  pub record AreCompleted (id count : ℕ) (before after : Queue (Payload c P)) : Type 0 where
    pub done : (k : ℕ) → k < count → after.status (id + k) ≡ some completed
    pub others : (k : ℕ) → k < id → after.status k ≡ before.status k

  -- One more completed job in front.
  one_more :
      (j : Job (Payload c P)) (jobs : List (Job (Payload c P))) (id count : ℕ)
      (q q' : Queue (Payload c P))
      → j.id ≡ id
      → AreCompleted (id + 1) count (done_queue c r b bk tools config tree j jobs q) q'
      → AreCompleted id (suc count) q q'
  one_more j jobs id count q q' same a =
      let here : (done_queue c r b bk tools config tree j jobs q).status id ≡ some completed =
        let e : (j.id == id) ≡ true = (==_iff j.id id).1 same in rw e refl in
      record {
        done = done_at here;
        others = λ k low.
            let e : (j.id == k) ≡ false = ground (arith, same, low) in
            a.others k (omega (arith, low)) ∙ rw e refl;
      }
    where
      done_at :
          (done_queue c r b bk tools config tree j jobs q).status id ≡ some completed
          → (k : ℕ) → k < suc count
          → q'.status (id + k) ≡ some completed
      done_at here zero low =
          let e : id + 0 ≡ id = omega arith in rw e (a.others id (omega arith) ∙ here)
      done_at here (suc k) low =
          let e : id + suc k ≡ id + 1 + k = omega arith in rw e (a.done k (omega (arith, low)))

  pub run_rounds-AreCompleted :
      (jobs : List (Job (Payload c P))) (before hs : List c.Hash) (id : ℕ) (t : Tables c)
      (x : TxTables c) (sv : Server) (q : Queue (Payload c P)) (w : bk.World)
      → Lined c r b bk tools config tree v before id jobs hs
      → IsSound c x
      → (jobs ≡ [] → next_of c x ≡ position before)
      → Shows r b sv q
      → q.waiting ≡ jobs
      → length (before ++ hs) ≤ 2 ^ tree_height c
      → (x' : TxTables c) × (sv' : Server) × (q' : Queue (Payload c P)) × (w' : bk.World)
        × (run_rounds c r b bk tools config tree v
              (length jobs)
              (relayer c r b bk t x sv w (position before) (root_number before))
            ≡ (
              ok tt,
              relayer c r b bk t x' sv' w' (position (before ++ hs)) (root_number (before ++ hs)),
            ))
        × IsSound c x'
        × (next_of c x' ≡ position (before ++ hs))
        × Shows r b sv' q'
        × (q'.waiting ≡ [])
        × AreCompleted id (length jobs) q q'
  unfolding run_rounds
  run_rounds-AreCompleted _ before _ id t x sv q w none_left tx_sound next shows front room =
      let same : before ++ [] ≡ before = append-nil before in
      (
        x,
        sv,
        q,
        w,
        rw same refl,
        tx_sound,
        rw same (next refl),
        shows,
        front,
        record { done = λ k low. elim low [ ]; others = λ k low. refl },
      )
  run_rounds-AreCompleted _ before _ id t x sv q w (in_line j jobs h hs n rest) tx_sound next shows
        front room =
      let total : length (before ++ (h ∷ hs)) ≡ length before + suc (length hs) =
        length-append before (h ∷ hs) in
      let joined : (before ++ h ∷ []) ++ hs ≡ before ++ (h ∷ hs) =
        append_assoc before (h ∷ []) hs in
      let f =
        first-Round t x sv q w (root_number before) id before j jobs h n tx_sound shows front
          (omega (arith, total, room)) in
      let q1 : Queue (Payload c P) = done_queue c r b bk tools config tree j jobs q in
      let (x2, sv2, q2, w2, run2, sound2, next2, shows2, idle, done) =
        run_rounds-AreCompleted jobs (before ++ h ∷ []) hs (id + 1) t f.transactions f.server q1
          f.world rest f.tx_sound (λ _. f.next) f.shows refl (rw joined room) in
      (
        x2,
        sv2,
        q2,
        w2,
        bind_ok (worker_round c r b bk tools config tree [] (λ s. s))
              (λ _. run_rounds c r b bk tools config tree v (length jobs))
              (relayer c r b bk t x sv w (position before) (root_number before)) (f.run)
            ∙ run2
            ∙ ap (λ l. (ok tt, relayer c r b bk t x2 sv2 w2 (position l) (root_number l))) joined,
        sound2,
        next2 ∙ ap position joined,
        shows2,
        idle,
        one_more j jobs id (length jobs) q q2 n.same_id done,
      )
