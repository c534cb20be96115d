-- ===== src/Backend/Near/Calls.antt =====
-- The calls of `transact` in the log of an indexer and in the transactions of an archive node, as
-- relations, and what the filters of src/backend/near.rs give of them.
use text.Mathlib.Text.{◌==◌ as str_eq}
use text.Mathlib.TextEquality.{eq_iff}
use zeropool_relayer_rs.Prelude.{
  ℕ, ◌≡◌, ◌≢◌, refl, ap, ◌⊎◌, ◌↔◌, inl, inr, Bool, true, false, ◌&&◌, ◌||◌, Bool-cases, Option,
  none, some, List, [], ◌∷◌, ◌++◌, String,
}
use zeropool_relayer_rs.Tx.{TxCalldata}
use zeropool_relayer_rs.Backend.Near.{
  IndexerAction, IndexerEntry, IndexerTx, ActionView, function_call, other_action, ArchivedTx,
  is_transact, has_transact, relevant, relevant_txs, transact_calls,
}

-- A call of `transact`, as the indexer sees it.
abbrev pub IsTransact : IndexerAction → Type 0
IsTransact a = (a.action ≡ "FUNCTION_CALL") × (a.method ≡ some "transact")

pub data HasTransact : List IndexerAction → Type 0 where
  this_action :
      (a : IndexerAction) (actions : List IndexerAction) → IsTransact a → HasTransact (a ∷ actions)
  later_action :
      (a : IndexerAction) (actions : List IndexerAction)
      → HasTransact actions
      → HasTransact (a ∷ actions)

-- A successful transaction to the account with a call of `transact`.
pub record IsRelevant (account : String) (e : IndexerEntry) : Type 0 where
  pub receiver : e.receiver_account_id ≡ account
  pub success : e.status ≡ true
  pub calls : HasTransact e.actions

-- The relevant transactions of a log, in its order.
pub data Relevants (account : String) : List IndexerEntry → List IndexerTx → Type 0 where
  no_entry : Relevants account [] []
  relevant_entry :
      (e : IndexerEntry) (log : List IndexerEntry) (txs : List IndexerTx)
      → IsRelevant account e
      → Relevants account log txs
      → Relevants account
          (e ∷ log)
          (record { hash = e.transaction_hash; sender = e.predecessor_account_id } ∷ txs)
  other_entry :
      (e : IndexerEntry) (log : List IndexerEntry) (txs : List IndexerTx)
      → ¬ IsRelevant account e
      → Relevants account log txs
      → Relevants account (e ∷ log) txs

-- The calls of `transact` among the actions of a transaction with this hash.
pub data ActionCalls (tx_hash : List ℕ) : List ActionView → List TxCalldata → Type 0 where
  no_action : ActionCalls tx_hash [] []
  transact_action :
      (args : List ℕ) (actions : List ActionView) (calls : List TxCalldata)
      → ActionCalls tx_hash actions calls
      → ActionCalls tx_hash
          (function_call "transact" args ∷ actions)
          (record { hash = tx_hash; calldata = args } ∷ calls)
  other_call :
      (name : String) (args : List ℕ) (actions : List ActionView) (calls : List TxCalldata)
      → name ≢ "transact"
      → ActionCalls tx_hash actions calls
      → ActionCalls tx_hash (function_call name args ∷ actions) calls
  no_call :
      (actions : List ActionView) (calls : List TxCalldata)
      → ActionCalls tx_hash actions calls
      → ActionCalls tx_hash (other_action ∷ actions) calls

-- The calls in a list of transactions, with what the archive node says of each.
pub data ArchivedCalls (details : String → String → ArchivedTx)
    : List IndexerTx → List TxCalldata → Type 0 where
  no_tx : ArchivedCalls details [] []
  archived_tx :
      (tx : IndexerTx) (txs : List IndexerTx) (calls more : List TxCalldata)
      → ActionCalls (details tx.hash tx.sender).hash (details tx.hash tx.sender).actions calls
      → ArchivedCalls details txs more
      → ArchivedCalls details (tx ∷ txs) (calls ++ more)

pub transact_calls-ActionCalls :
    (tx_hash : List ℕ) (actions : List ActionView)
    → ActionCalls tx_hash actions (transact_calls tx_hash actions)
unfolding transact_calls
transact_calls-ActionCalls tx_hash [] = no_action
transact_calls-ActionCalls tx_hash (other_action ∷ actions) =
    no_call actions (transact_calls tx_hash actions) (transact_calls-ActionCalls tx_hash actions)
transact_calls-ActionCalls tx_hash (function_call name args ∷ actions) =
    let calls : List TxCalldata = transact_calls tx_hash actions in
    let rest = transact_calls-ActionCalls tx_hash actions in
    elim (Bool-cases (str_eq name "transact")) [
      | inl e ↦ rw ((eq_iff name "transact").0 e) (transact_action args actions calls rest)
      | inr e ↦ rw e (
          other_call name args actions calls
            (λ same. absurd (cc (e, (eq_iff name "transact").1 same))) rest)
    ]

and_iff : (p q : Bool) → ((p && q) ≡ true) ↔ ((p ≡ true) × (q ≡ true))
and_iff true q = (λ e. (refl, e), λ h. h.1)
and_iff false q = (λ e. absurd (cc e), λ h. absurd (cc (h.0)))

or_iff : (p q : Bool) → ((p || q) ≡ true) ↔ ((p ≡ true) ⊎ (q ≡ true))
or_iff true q = (λ e. inl refl, λ h. refl)
or_iff false q = (λ e. inr e, λ h. elim h [ inl e ↦ absurd (cc e) | inr e ↦ e ])

method_iff :
    (m : Option String)
    → (elim m [ none ↦ false | some method ↦ str_eq method "transact" ] ≡ true)
      ↔ (m ≡ some "transact")
method_iff none = (λ e. absurd (cc e), λ e. absurd (cc e))
method_iff (some method) =
    (λ e. ap some ((eq_iff method "transact").0 e), λ e. (eq_iff method "transact").1 (cc e))

is_transact_iff : (a : IndexerAction) → (is_transact a ≡ true) ↔ IsTransact a
is_transact_iff a =
    let both = and_iff (str_eq a.action "FUNCTION_CALL") _ in
    let name = eq_iff a.action "FUNCTION_CALL" in
    (
      λ e. (name.0 ((both.0 e).0), (method_iff a.method).0 ((both.0 e).1)),
      λ h. both.1 (name.1 (h.0), (method_iff a.method).1 (h.1)),
    )

HasTransact-split :
    (a : IndexerAction) (actions : List IndexerAction)
    → HasTransact (a ∷ actions)
    → IsTransact a ⊎ HasTransact actions
HasTransact-split a actions (this_action _ _ h) = inl h
HasTransact-split a actions (later_action _ _ h) = inr h

has_transact_iff :
    (actions : List IndexerAction) → (has_transact actions ≡ true) ↔ HasTransact actions
has_transact_iff [] = (λ e. absurd (cc e), λ h. elim h [ ])
has_transact_iff (a ∷ actions) =
    let either = or_iff (is_transact a) (has_transact actions) in
    let rest = has_transact_iff actions in
    (
      λ e. elim (either.0 e) [
        | inl here ↦ this_action a actions ((is_transact_iff a).0 here)
        | inr later ↦ later_action a actions (rest.0 later)
      ],
      λ h. either.1 (elim (HasTransact-split a actions h) [
        | inl here ↦ inl ((is_transact_iff a).1 here)
        | inr later ↦ inr (rest.1 later)
      ]),
    )

relevant-cases :
    (account : String) (e : IndexerEntry)
    → (IsRelevant account e
        × (relevant account e
            ≡ some (record { hash = e.transaction_hash; sender = e.predecessor_account_id })))
      ⊎ ((¬ IsRelevant account e) × (relevant account e ≡ none))
relevant-cases account e =
    let same = eq_iff e.receiver_account_id account in
    let calls = has_transact_iff e.actions in
    elim (Bool-cases (str_eq e.receiver_account_id account)) [
      | inr elsewhere ↦ inr (λ h. absurd (cc (elsewhere, same.1 h.receiver)), rw elsewhere refl)
      | inl here ↦ elim (Bool-cases e.status) [
        | inr failed ↦ inr (λ h. absurd (cc (failed, h.success)), rw (here, failed) refl)
        | inl good ↦ elim (Bool-cases (has_transact e.actions)) [
          | inr nothing ↦
              inr (λ h. absurd (cc (nothing, calls.1 h.calls)), rw (here, good, nothing) refl)
          | inl some_call ↦ inl (
            record { receiver = same.0 here; success = good; calls = calls.0 some_call },
            rw (here, good, some_call) refl,
          )
        ]
      ]
    ]

pub relevant_txs-Relevants :
    (account : String) (log : List IndexerEntry) → Relevants account log (relevant_txs account log)
unfolding relevant_txs
relevant_txs-Relevants account [] = no_entry
relevant_txs-Relevants account (e ∷ log) = elim (relevant-cases account e) [
  | inl (is_relevant, found) ↦
      rw (found, relevant_txs)
        (relevant_entry e log (relevant_txs account log) is_relevant
          (relevant_txs-Relevants account log))
  | inr (is_other, nothing) ↦
      rw (nothing, relevant_txs)
        (other_entry e log (relevant_txs account log) is_other (relevant_txs-Relevants account log))
]
