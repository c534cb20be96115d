-- ===== src/Api/Traffic/Accept.antt =====
-- What `create_transaction` and `create_transaction_legacy` of src/json_api.rs leave behind, also where
-- they refuse or panic.
use zeropool_relayer_rs.Prelude.{ℕ, ◌+◌, ◌*◌, ◌^◌, ◌≤◌, ◌<◌, ap, List, [], ◌∷◌, ◌++◌, length}
use zeropool_relayer_rs.Exec.{Exec, Outcome}
use zeropool_relayer_rs.Exec.Leads.{Leads, Leads-bind}
use zeropool_relayer_rs.Crates.{Crates}
use zeropool_relayer_rs.Redis.{Redis}
use zeropool_relayer_rs.Merkle.Tree.{MerkleTree, tree_height}
use zeropool_relayer_rs.Merkle.View.{HasDefaults}
use zeropool_relayer_rs.TxStorage.{stride}
use zeropool_relayer_rs.JobQueue.{Codec}
use zeropool_relayer_rs.Tx.{ParsedTxData, TxValidationError}
use zeropool_relayer_rs.Config.{Config}
use zeropool_relayer_rs.Backend.{BlockchainBackend}
use zeropool_relayer_rs.Worker.{Payload}
use zeropool_relayer_rs.Worker.Process.{Relayer, on_chain}
use zeropool_relayer_rs.Api.{Validation, TxDataRequest, validate_tx}
use zeropool_relayer_rs.Api.Handlers.{
  parse_request, accept_or_refuse, create_transaction, create_transaction_legacy,
}
use zeropool_relayer_rs.Api.Traffic.{IsHealthy, Grown}
use zeropool_relayer_rs.Api.Traffic.Enqueue.{same_leaves, enqueue-Leads}

module _ (c : Crates) (r : Redis) {P : Type 0} (b : Codec (Payload c P))
    (bk : BlockchainBackend c P) (config : Config) (tree : MerkleTree c)
    (v : Validation c.Hash P) where
  open r use {Server}

  abbrev moved : bk.World → Relayer c r b bk → Relayer c r b bk
  moved w s = record s { chain = w }

  module _ (i rt : ℕ) (leaves : List c.Hash) where
    outcome-Leads :
        {A : Type 0} (f : Relayer c r b bk → Outcome A)
        → Leads (IsHealthy c r b bk i rt leaves) (IsHealthy c r b bk i rt leaves) (λ s. (f s, s))
    outcome-Leads f = record { at = λ s h. h }

    on_chain-Leads :
        {A : Type 0} (m : Exec bk.World A)
        → Leads
            (IsHealthy c r b bk i rt leaves)
            (IsHealthy c r b bk i rt leaves)
            (on_chain c r b bk m)
    on_chain-Leads m = record {
      at = λ s h. record {
        tables = h.tables;
        transactions = h.transactions;
        server = h.server;
        world = (m s.chain).1;
        queue = h.queue;
        state = ap (moved (m s.chain).1) h.state;
        represents = h.represents;
        remembers = h.remembers;
        tx_sound = h.tx_sound;
        not_ahead = h.not_ahead;
        shows = h.shows;
      };
    }

    module _ (defaults : HasDefaults c tree) (small : tree_height c ≤ 62)
        (bound : 2 ^ tree_height c * stride c + stride c < 2 ^ 64)
        (room : length leaves < 2 ^ tree_height c) where
      accept-Leads :
          (tx : ParsedTxData c P) (errors : List TxValidationError)
          → Leads
              (IsHealthy c r b bk i rt leaves)
              (Grown c r b bk i rt leaves)
              (accept_or_refuse c r b bk tree v config tx errors)
      accept-Leads tx [] = record {
        at = λ s h.
            (enqueue-Leads c r b bk config tree v i rt leaves defaults small bound room tx).at s h;
      }
      accept-Leads tx (error ∷ errors) = record {
        at = λ s h. same_leaves c r b bk config tree v i rt leaves s h;
      }

      pub create-Leads :
          (tx_data : TxDataRequest c.Hash P)
          → Leads
              (IsHealthy c r b bk i rt leaves)
              (Grown c r b bk i rt leaves)
              (create_transaction c r b bk tree v config tx_data)
      unfolding create_transaction
      create-Leads tx_data =
          let Before : Relayer c r b bk → Type 0 = IsHealthy c r b bk i rt leaves in
          Leads-bind Before Before (Grown c r b bk i rt leaves) _
            (same_leaves c r b bk config tree v i rt leaves)
            (λ errors.
              Leads-bind Before Before (Grown c r b bk i rt leaves) _
                (same_leaves c r b bk config tree v i rt leaves)
                (λ tx.
                  Leads-bind Before Before (Grown c r b bk i rt leaves) _
                    (same_leaves c r b bk config tree v i rt leaves)
                    (λ more. accept-Leads tx (errors ++ more))
                    (on_chain c r b bk (bk.validate_tx tx)) (on_chain-Leads (bk.validate_tx tx)))
                (λ s. (parse_request tx_data, s)) (outcome-Leads (λ s. parse_request tx_data)))
            (λ s. (validate_tx v config.fee s.pool_index tx_data, s))
            (outcome-Leads (λ s. validate_tx v config.fee s.pool_index tx_data))

      pub legacy-Leads :
          (tx_data : List (TxDataRequest c.Hash P))
          → Leads
              (IsHealthy c r b bk i rt leaves)
              (Grown c r b bk i rt leaves)
              (create_transaction_legacy c r b bk tree v config tx_data)
      unfolding create_transaction_legacy
      legacy-Leads [] = record { at = λ s h. same_leaves c r b bk config tree v i rt leaves s h }
      legacy-Leads (tx_data ∷ []) = create-Leads tx_data
      legacy-Leads (_ ∷ _ ∷ _) = record {
        at = λ s h. same_leaves c r b bk config tree v i rt leaves s h;
      }
