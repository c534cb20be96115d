-- ===== src/Api/Backlog/Submit.antt =====
-- Requests that are accepted one after another (src/json_api.rs): their jobs wait in line.
use native.Mathlib.Nat.{mul-le-mul_right}
use mathlib.Core.List.{append-nil, append_assoc}
use zeropool_relayer_rs.Prelude.{
  ℕ, ◌+◌, ◌*◌, ◌^◌, ◌≤◌, ◌<◌, ◌≡◌, refl, sym, ap, ◌∙◌, List, [], ◌∷◌, ◌++◌, length, length-append,
  arith,
}
use zeropool_relayer_rs.Exec.{ok, bind_ok}
use zeropool_relayer_rs.Crates.{Crates}
use zeropool_relayer_rs.Redis.{Redis}
use zeropool_relayer_rs.Merkle.Storage.{Tables}
use zeropool_relayer_rs.Merkle.Tree.{MerkleTree, tree_height}
use zeropool_relayer_rs.Merkle.View.{HasDefaults}
use zeropool_relayer_rs.TxStorage.{TxTables, stride}
use zeropool_relayer_rs.JobQueue.{Codec, Job}
use zeropool_relayer_rs.JobQueue.Queue.{Queue, Shows, enqueue}
use zeropool_relayer_rs.Config.{Config}
use zeropool_relayer_rs.Backend.{BlockchainBackend}
use zeropool_relayer_rs.Worker.{Payload}
use zeropool_relayer_rs.Worker.Prepare.{InStep}
use zeropool_relayer_rs.Worker.Process.{Tools}
use zeropool_relayer_rs.Worker.Await.{relayer}
use zeropool_relayer_rs.Api.{Validation, TxDataRequest}
use zeropool_relayer_rs.Api.Handlers.{create_transaction}
use zeropool_relayer_rs.Api.Create.{create_transaction_accepts}
use zeropool_relayer_rs.Api.Backlog.{
  IsWilling, Accepted, no_request, request, IsNextJob, Lined, Lined-append, submit_all,
}

module _ (c : Crates) (r : Redis) {P : Type 0} (b : Codec (Payload c P))
    (bk : BlockchainBackend c P) (tools : Tools c P) (config : Config) (tree : MerkleTree c)
    (v : Validation c.Hash P) (defaults : HasDefaults c tree) (small : tree_height c ≤ 62)
    (bound : 2 ^ tree_height c * stride c + stride c < 2 ^ 64)
    (willing : IsWilling c r b bk tools config tree v) where
  open r use {Server}

  -- A relayer in step whose waiting jobs are those of its last leaves.
  pub record IsLined (t : Tables c) (x : TxTables c) (sv : Server) (q : Queue (Payload c P))
      (before hs : List c.Hash) (first : ℕ) : Type 0 where
    pub step : InStep c r b t x (before ++ hs)
    pub shows : Shows r b sv q
    pub lined : Lined c r b bk tools config tree v before first q.waiting hs
    pub next_id : q.counter + 1 ≡ first + length q.waiting

  position_below : (n : ℕ) → n ≤ 2 ^ tree_height c → n * stride c + stride c < 2 ^ 64
  position_below n h =
      let below = mul-le-mul_right {m = n} {n = 2 ^ tree_height c} (stride c) h in
      omega (arith, below, bound)

  pub submit_all-IsLined :
      (i : ℕ) (all : List (TxDataRequest c.Hash P)) (commits before hs : List c.Hash) (first : ℕ)
      (t : Tables c) (x : TxTables c) (sv : Server) (q : Queue (Payload c P)) (w : bk.World)
      (rt : ℕ)
      → Accepted c r b bk tools config tree v i all commits
      → IsLined t x sv q before hs first
      → length (before ++ hs) + length commits ≤ 2 ^ tree_height c
      → (t' : Tables c) × (x' : TxTables c) × (sv' : Server) × (q' : Queue (Payload c P))
        × (submit_all c r b bk tools config tree v all (relayer c r b bk t x sv w i rt)
            ≡ (ok tt, relayer c r b bk t' x' sv' w i rt))
        × IsLined t' x' sv' q' before (hs ++ commits) first
  unfolding submit_all
  submit_all-IsLined i _ _ before hs first t x sv q w rt no_request l room =
      (t, x, sv, q, refl, rw (append-nil hs) l)
  submit_all-IsLined i _ _ before hs first t x sv q w rt (request tx_data later tx commits a rest) l
        room =
      let leaves : List c.Hash = before ++ hs in
      let h : c.Hash = tx.out_commit in
      let (t1, x1, sv1, payload, run1, step1, written1, shows1, index, same_tx, root_after) =
        create_transaction_accepts c r b bk tree v config defaults t x sv w w i rt leaves q tx_data
          tx a.text l.step l.shows a.valid a.parsed (willing.validates tx w) a.extracted
          (omega (arith, room)) small (position_below (length leaves) (omega (arith, room))) in
      let j : Job (Payload c P) = record { id = q.counter + 1; payload = payload } in
      let joined : leaves ++ h ∷ [] ≡ before ++ (hs ++ h ∷ []) = append_assoc before hs (h ∷ []) in
      let last : IsNextJob c r b bk tools config tree v leaves (first + length q.waiting) j h =
        record {
          same_id = l.next_id;
          index = index;
          root_after = root_after;
          text = a.text;
          extracted = ap (λ z. bk.extract_ciphertext z.memo z.tx_type) same_tx ∙ a.extracted;
        } in
      let l1 : IsLined t1 x1 sv1 (enqueue payload q) before (hs ++ h ∷ []) first = record {
        step = rw (← joined) step1;
        shows = shows1;
        lined = Lined-append c r b bk tools config tree v j h l.lined last;
        next_id = omega (arith, l.next_id, length-append q.waiting (j ∷ []));
      } in
      let longer : length (before ++ (hs ++ h ∷ [])) ≡ length leaves + 1 =
        ap length (sym joined) ∙ length-append leaves (h ∷ []) in
      let (t2, x2, sv2, q2, run2, l2) =
        submit_all-IsLined i later commits before (hs ++ h ∷ []) first t1 x1 sv1 (enqueue payload q)
          w rt rest l1 (omega (arith, longer, room)) in
      (
        t2,
        x2,
        sv2,
        q2,
        bind_ok (create_transaction c r b bk tree v config tx_data)
              (λ _. submit_all c r b bk tools config tree v later) (relayer c r b bk t x sv w i rt)
              run1
            ∙ run2,
        rw (← append_assoc hs (h ∷ []) commits) l2,
      )
