-- ===== src/Api/Traffic/Healthy.antt =====
-- What any requests to src/json_api.rs leave behind.
use mathlib.Core.List.{append-nil, append_assoc}
use zeropool_relayer_rs.Prelude.{
  ℕ, ◌+◌, ◌*◌, ◌^◌, ◌≤◌, ◌<◌, ◌≡◌, ap, none, String, List, [], ◌∷◌, ◌++◌, length, length-append,
  arith,
}
use zeropool_relayer_rs.Exec.{Exec}
use zeropool_relayer_rs.Exec.Leads.{Leads, Leads-bind}
use zeropool_relayer_rs.Crates.{Crates}
use zeropool_relayer_rs.Redis.{Redis}
use zeropool_relayer_rs.Merkle.Storage.{Tables}
use zeropool_relayer_rs.Merkle.Tree.{MerkleTree, tree_height}
use zeropool_relayer_rs.Merkle.View.{HasDefaults}
use zeropool_relayer_rs.Merkle.Spec.{Represents}
use zeropool_relayer_rs.TxStorage.{TxTables, stride}
use zeropool_relayer_rs.TxStorage.Entries.{IsSound}
use zeropool_relayer_rs.JobQueue.{Codec}
use zeropool_relayer_rs.JobQueue.Queue.{Queue, Shows}
use zeropool_relayer_rs.Config.{Config}
use zeropool_relayer_rs.Backend.{BlockchainBackend}
use zeropool_relayer_rs.Worker.{Payload}
use zeropool_relayer_rs.Worker.Process.{Relayer}
use zeropool_relayer_rs.Worker.Await.{relayer}
use zeropool_relayer_rs.Api.{Validation}
use zeropool_relayer_rs.Api.Handlers.{
  AppResult, TxPaginationQuery, create_transaction, create_transaction_legacy, get_transactions,
  get_transactions_legacy, job, info,
}
use zeropool_relayer_rs.Api.Lists.{meaning, queries_tell_state}
use zeropool_relayer_rs.Api.Traffic.{
  IsHealthy, Grown, reply, handle, handle_all, Request, list_transactions, post_transaction,
  list_transactions_v2, send_transactions, ask_job, ask_info,
}
use zeropool_relayer_rs.Api.Traffic.Enqueue.{same_leaves}
use zeropool_relayer_rs.Api.Traffic.Accept.{create-Leads, legacy-Leads}

module _ (c : Crates) (r : Redis) {P : Type 0} (b : Codec (Payload c P))
    (bk : BlockchainBackend c P) (config : Config) (tree : MerkleTree c) (v : Validation c.Hash P)
    (to_string : ℕ → String) (show_root : c.Hash → String) where
  open r use {Server}

  module _ (i rt : ℕ) (leaves : List c.Hash) where
    module _ (defaults : HasDefaults c tree) (small : tree_height c ≤ 62)
        (bound : 2 ^ tree_height c * stride c + stride c < 2 ^ 64)
        (room : length leaves < 2 ^ tree_height c) where
      abbrev any_page : TxPaginationQuery
      any_page = record { offset = none; limit = none }

      -- No query changes the state.
      queries_still :
          (pagination : TxPaginationQuery) (id : ℕ) (t : Tables c) (x : TxTables c) (sv : Server)
          (w : bk.World) (q : Queue (Payload c P))
          → Represents c t leaves
          → IsSound c x
          → Shows r b sv q
          → ((get_transactions c r b bk pagination (relayer c r b bk t x sv w i rt)).1
              ≡ relayer c r b bk t x sv w i rt)
            × ((get_transactions_legacy c r b bk pagination (relayer c r b bk t x sv w i rt)).1
                ≡ relayer c r b bk t x sv w i rt)
            × ((job c r b bk id (relayer c r b bk t x sv w i rt)).1
                ≡ relayer c r b bk t x sv w i rt)
            × ((info c r b bk tree to_string show_root (relayer c r b bk t x sv w i rt)).1
                ≡ relayer c r b bk t x sv w i rt)
      queries_still pagination id t x sv w q rep tx_sound shows =
          let (lo, from) = meaning 0 pagination.offset in
          let (count, size) = meaning 100 pagination.limit in
          let (txs, shown, answer, listing, list, flagged, legacy, status, asked, told) =
            queries_tell_state c r b bk tree defaults t x sv w i rt leaves q pagination lo count id
              to_string show_root rep tx_sound shows from size in
          (ap (λ z. z.1) list, ap (λ z. z.1) legacy, ap (λ z. z.1) asked, ap (λ z. z.1) told)

      -- A query that changes nothing.
      query-Leads :
          {A : Type 0} (m : Exec (Relayer c r b bk) A)
          → ((t : Tables c) (x : TxTables c) (sv : Server) (w : bk.World) (q : Queue (Payload c P))
              → Represents c t leaves
              → IsSound c x
              → Shows r b sv q
              → (m (relayer c r b bk t x sv w i rt)).1 ≡ relayer c r b bk t x sv w i rt)
          → Leads (IsHealthy c r b bk i rt leaves) (Grown c r b bk i rt leaves) m
      query-Leads m still = record {
        at = λ s h.
            let e : (m s).1 ≡ s = rw (h.state) (
              still h.tables h.transactions h.server h.world h.queue h.represents h.tx_sound
                h.shows) in
            rw e (same_leaves c r b bk config tree v i rt leaves s h);
      }

      reply-Leads :
          {A : Type 0} (m : Exec (Relayer c r b bk) (AppResult A))
          → Leads (IsHealthy c r b bk i rt leaves) (Grown c r b bk i rt leaves) m
          → Leads
              (IsHealthy c r b bk i rt leaves)
              (Grown c r b bk i rt leaves)
              (reply c r b bk config tree v to_string show_root m)
      reply-Leads m h =
          Leads-bind (IsHealthy c r b bk i rt leaves) (Grown c r b bk i rt leaves)
            (Grown c r b bk i rt leaves) _ (λ s g. g) (λ answer. record { at = λ s g. g }) m h

      handle-Leads :
          (request : Request c.Hash P)
          → Leads
              (IsHealthy c r b bk i rt leaves)
              (Grown c r b bk i rt leaves)
              (handle c r b bk config tree v to_string show_root request)
      unfolding handle
      handle-Leads (list_transactions pagination) =
          reply-Leads (get_transactions c r b bk pagination) (
            query-Leads (get_transactions c r b bk pagination) (λ t x sv w q rep tx_sound shows.
              (queries_still pagination 0 t x sv w q rep tx_sound shows).0))
      handle-Leads (post_transaction tx_data) =
          reply-Leads (create_transaction c r b bk tree v config tx_data)
            (create-Leads c r b bk config tree v i rt leaves defaults small bound room tx_data)
      handle-Leads (list_transactions_v2 pagination) =
          reply-Leads (get_transactions_legacy c r b bk pagination) (
            query-Leads (get_transactions_legacy c r b bk pagination)
              (λ t x sv w q rep tx_sound shows.
                (queries_still pagination 0 t x sv w q rep tx_sound shows).1))
      handle-Leads (send_transactions tx_data) =
          reply-Leads (create_transaction_legacy c r b bk tree v config tx_data)
            (legacy-Leads c r b bk config tree v i rt leaves defaults small bound room tx_data)
      handle-Leads (ask_job id) = reply-Leads (job c r b bk id) (
          query-Leads (job c r b bk id) (λ t x sv w q rep tx_sound shows.
            (queries_still any_page id t x sv w q rep tx_sound shows).2))
      handle-Leads ask_info = reply-Leads (info c r b bk tree to_string show_root) (
          query-Leads (info c r b bk tree to_string show_root) (λ t x sv w q rep tx_sound shows.
            (queries_still any_page 0 t x sv w q rep tx_sound shows).3))

  module _ (i rt : ℕ) (defaults : HasDefaults c tree) (small : tree_height c ≤ 62)
      (bound : 2 ^ tree_height c * stride c + stride c < 2 ^ 64) where
    -- The tree holds a list of leaves and its historic roots, the transaction storage is sound and
    -- its next index is not above that of the next leaf, and the server stores a queue; the tree
    -- has room for as many leaves as requests come, its height is at most 62, the positions fit in
    -- 64 bits, and no call to a database or to Redis fails. Whatever requests to the routes are
    -- handled one after another, valid or not, refused, failing or panicking, and whatever the
    -- backend answers to them, all this holds after them, with at most one further leaf for each
    -- request behind the old leaves, and the index and the root of the pool are as before.
    pub handle_all-IsHealthy :
        (requests : List (Request c.Hash P)) (leaves : List c.Hash) (s : Relayer c r b bk)
        → IsHealthy c r b bk i rt leaves s
        → length leaves + length requests ≤ 2 ^ tree_height c
        → (more : List c.Hash) × (length more ≤ length requests)
          × IsHealthy c r b bk i rt
              (leaves ++ more)
              (handle_all c r b bk config tree v to_string show_root requests s)
    unfolding handle_all
    handle_all-IsHealthy [] leaves s h room = ([], omega arith, rw (append-nil leaves) h)
    handle_all-IsHealthy (request ∷ later) leaves s h room =
        let (first, one, h1) =
          (handle-Leads i rt leaves defaults small bound (omega (arith, room)) request).at s h in
        let (rest, few, h2) =
          handle_all-IsHealthy later (leaves ++ first)
            ((handle c r b bk config tree v to_string show_root request s).1) h1
            (omega (arith, one, room, length-append leaves first)) in
        (
          first ++ rest,
          omega (arith, one, few, length-append first rest),
          rw (← append_assoc leaves first rest) h2,
        )
