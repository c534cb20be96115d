-- ===== src/Backend/Waves/Calls.antt =====
-- The calls of `transact` among transactions on Waves, as a relation, and what a page of
-- src/backend/waves.rs gives of them.
use text.Mathlib.Text.{◌==◌ as str_eq}
use text.Mathlib.TextEquality.{eq_iff}
use zeropool_relayer_rs.Prelude.{
  ℕ, ◌≡◌, ◌≢◌, refl, sym, ap, ◌∙◌, ◌⊎◌, inl, inr, true, false, Bool-cases, none, some, Option, List,
  [], ◌∷◌, ◌++◌,
}
use zeropool_relayer_rs.Tx.{TxCalldata}
use zeropool_relayer_rs.Backend.Waves.{
  TransactionInfo, TransactionDataInfo, invoke, other_data, invoked, read_page,
}

-- The successful invocations of `transact` with a binary first argument, in order.
pub data TransactCalls : List TransactionInfo → List TxCalldata → Type 0 where
  no_tx : TransactCalls [] []
  call :
      (tx : TransactionInfo) (calldata : List ℕ) (txs : List TransactionInfo)
      (calls : List TxCalldata)
      → tx.succeeded ≡ true
      → tx.tx_data ≡ invoke "transact" (some calldata)
      → TransactCalls txs calls
      → TransactCalls (tx ∷ txs) (record { hash = tx.id; calldata = calldata } ∷ calls)
  failed :
      (tx : TransactionInfo) (txs : List TransactionInfo) (calls : List TxCalldata)
      → tx.succeeded ≡ false
      → TransactCalls txs calls
      → TransactCalls (tx ∷ txs) calls
  other :
      (tx : TransactionInfo) (txs : List TransactionInfo) (calls : List TxCalldata)
      → ((calldata : List ℕ) → tx.tx_data ≢ invoke "transact" (some calldata))
      → TransactCalls txs calls
      → TransactCalls (tx ∷ txs) calls

pub TransactCalls-append :
    {xs ys : List TransactionInfo} {cs ds : List TxCalldata}
    → TransactCalls xs cs
    → TransactCalls ys ds
    → TransactCalls (xs ++ ys) (cs ++ ds)
TransactCalls-append no_tx h = h
TransactCalls-append {ys = ys} {ds = ds} (call tx calldata txs calls ok_tx is_call rest) h =
    call tx calldata (txs ++ ys) (calls ++ ds) ok_tx is_call (TransactCalls-append rest h)
TransactCalls-append {ys = ys} {ds = ds} (failed tx txs calls why rest) h =
    failed tx (txs ++ ys) (calls ++ ds) why (TransactCalls-append rest h)
TransactCalls-append {ys = ys} {ds = ds} (other tx txs calls why rest) h =
    other tx (txs ++ ys) (calls ++ ds) why (TransactCalls-append rest h)

-- What the code takes for a call is one, and the other way round.
invoked-cases :
    (id : List ℕ) (d : TransactionDataInfo)
    → ((calldata : List ℕ) × (d ≡ invoke "transact" (some calldata))
        × (invoked id d ≡ record { hash = id; calldata = calldata } ∷ []))
      ⊎ (((calldata : List ℕ) → d ≢ invoke "transact" (some calldata)) × (invoked id d ≡ []))
invoked-cases id other_data = inr (λ calldata e. cc e, refl)
invoked-cases id (invoke name none) = inr (λ calldata e. cc e, refl)
invoked-cases id (invoke name (some calldata)) = elim (Bool-cases (str_eq name "transact")) [
  | inl e ↦
      inl (calldata, ap (λ s. invoke s (some calldata)) ((eq_iff name "transact").0 e), rw e refl)
  | inr e ↦ inr (
    λ other same.
        let there : name ≡ "transact" = cc same in
        let both : true ≡ false = sym ((eq_iff name "transact").1 there) ∙ e in cc both,
    rw e refl,
  )
]

calls_none : (cursor : Option (List ℕ)) → (read_page cursor []).1 ≡ []
unfolding read_page
calls_none cursor = refl

calls_good :
    (cursor : Option (List ℕ)) (tx : TransactionInfo) (txs : List TransactionInfo)
    → tx.succeeded ≡ true
    → (read_page cursor (tx ∷ txs)).1 ≡ invoked tx.id tx.tx_data ++ (read_page (some tx.id) txs).1
unfolding read_page
calls_good cursor tx txs e = rw e refl

calls_bad :
    (cursor : Option (List ℕ)) (tx : TransactionInfo) (txs : List TransactionInfo)
    → tx.succeeded ≡ false
    → (read_page cursor (tx ∷ txs)).1 ≡ (read_page cursor txs).1
unfolding read_page
calls_bad cursor tx txs e = rw e refl

pub read_page-TransactCalls :
    (cursor : Option (List ℕ)) (page : List TransactionInfo)
    → TransactCalls page (read_page cursor page).1
read_page-TransactCalls cursor [] = rw (calls_none cursor) no_tx
read_page-TransactCalls cursor (tx ∷ txs) = elim (Bool-cases tx.succeeded) [
  | inl good ↦
      let later : List TxCalldata = (read_page (some tx.id) txs).1 in
      let rest = read_page-TransactCalls (some tx.id) txs in
      rw (calls_good cursor tx txs good) (elim (invoked-cases tx.id tx.tx_data) [
        | inl (calldata, is_call, one) ↦ rw one (call tx calldata txs later good is_call rest)
        | inr (is_other, nothing) ↦ rw nothing (other tx txs later is_other rest)
      ])
  | inr bad ↦
      rw (calls_bad cursor tx txs bad)
        (failed tx txs (read_page cursor txs).1 bad (read_page-TransactCalls cursor txs))
]
