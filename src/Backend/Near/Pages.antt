-- ===== src/Backend/Near/Pages.antt =====
-- The pages of `fetch_latest_transactions` of src/backend/near.rs, against the indexer's whole log.
use native.Mathlib.Nat.{zero-add, suc-add, add-zero}
use mathlib.Core.List.{append_assoc}
use zeropool_relayer_rs.Prelude.{
  ℕ, zero, suc, ◌+◌, ◌*◌, ◌/◌, ◌≤◌, ◌≡◌, refl, sym, ap, ◌∙◌, inl, inr, Option-cases, Bool-cases,
  some, List, [], ◌∷◌, ◌++◌, String, ◌==◌, length, take, drop, arith,
}
use zeropool_relayer_rs.Exec.{ok}
use zeropool_relayer_rs.Crates.{Crates}
use zeropool_relayer_rs.Tx.{TxCalldata}
use zeropool_relayer_rs.Backend.Near.{
  NearRpc, IndexerEntry, IndexerTx, ArchivedTx, relevant, relevant_txs, transact_calls,
  get_tx_count, get_zeropool_txns, fetch_txs, fetch_pages, near_fetch,
}
use zeropool_relayer_rs.Backend.Near.Calls.{
  Relevants, relevant_txs-Relevants, ArchivedCalls, no_tx, archived_tx, transact_calls-ActionCalls,
}

module _ {ℓ} {A : Type ℓ} where
  take-add : (m k : ℕ) (xs : List A) → take (m + k) xs ≡ take m xs ++ take k (drop m xs)
  take-add zero k xs = rw (zero-add k) refl
  take-add (suc m) zero [] = rw (add-zero (suc m)) refl
  take-add (suc m) (suc k) [] = rw (suc-add m (suc k)) refl
  take-add (suc m) k (x ∷ xs) = rw (suc-add m k) (ap (λ l. x ∷ l) (take-add m k xs))

  pub drop-add : (m k : ℕ) (xs : List A) → drop (m + k) xs ≡ drop k (drop m xs)
  drop-add zero k xs = rw (zero-add k) refl
  drop-add (suc m) zero [] = rw (add-zero (suc m)) refl
  drop-add (suc m) (suc k) [] = rw (suc-add m (suc k)) refl
  drop-add (suc m) k (x ∷ xs) = rw (suc-add m k) (drop-add m k xs)

  take-all : (m : ℕ) (xs : List A) → length xs ≤ m → take m xs ≡ xs
  take-all zero [] h = refl
  take-all zero (x ∷ xs) h = elim h [ ]
  take-all (suc m) [] h = refl
  take-all (suc m) (x ∷ xs) h = ap (λ l. x ∷ l) (take-all m xs (omega (arith, h)))

-- The calls of `transact` in a list of transactions, with what the archive node says of each.
abbrev calls_of : (String → String → ArchivedTx) → List IndexerTx → List TxCalldata
calls_of details [] = []
calls_of details (pair ∷ pairs) =
    transact_calls (details pair.hash pair.sender).hash (details pair.hash pair.sender).actions
    ++ calls_of details pairs

calls_of-append :
    (details : String → String → ArchivedTx) (xs ys : List IndexerTx)
    → calls_of details (xs ++ ys) ≡ calls_of details xs ++ calls_of details ys
calls_of-append details [] ys = refl
calls_of-append details (x ∷ xs) ys =
    let calls = transact_calls (details x.hash x.sender).hash (details x.hash x.sender).actions in
    ap (λ l. calls ++ l) (calls_of-append details xs ys)
    ∙ sym (append_assoc calls (calls_of details xs) (calls_of details ys))

relevant_txs-append :
    (account : String) (xs ys : List IndexerEntry)
    → relevant_txs account (xs ++ ys) ≡ relevant_txs account xs ++ relevant_txs account ys
unfolding relevant_txs
relevant_txs-append account [] ys = refl
relevant_txs-append account (x ∷ xs) ys = elim (Option-cases (relevant account x)) [
  | inl e ↦ rw (e, relevant_txs) (relevant_txs-append account xs ys)
  | inr (found, e) ↦ rw (e, relevant_txs) (ap (λ l. found ∷ l) (relevant_txs-append account xs ys))
]

module _ (c : Crates) {P : Type 0} (n : NearRpc c P) (w : n.Chain)
    (details : String → String → ArchivedTx) (log : List IndexerEntry) where
  -- The archive node knows the transactions, and the indexer serves its log in pages.
  pub record Serves : Type 0 where
    pub archived :
        (tx_hash sender : String)
        → n.archived_tx tx_hash sender w ≡ (ok (details tx_hash sender), w)
    pub pages : (page : ℕ) → n.txns_page (page + 1) 25 w ≡ (ok (take 25 (drop (page * 25) log)), w)

  -- The calls that the filters of the code give of a list of entries.
  abbrev reference : List IndexerEntry → List TxCalldata
  reference entries = calls_of details (relevant_txs n.account entries)

  reference-append :
      (xs ys : List IndexerEntry) → reference (xs ++ ys) ≡ reference xs ++ reference ys
  reference-append xs ys =
      ap (λ l. calls_of details l) (relevant_txs-append n.account xs ys)
      ∙ calls_of-append details (relevant_txs n.account xs) (relevant_txs n.account ys)

  reference_none : reference [] ≡ []
  unfolding relevant_txs
  reference_none = refl

  fetch_txs_lem :
      Serves → (pairs : List IndexerTx) → fetch_txs c n pairs w ≡ (ok (calls_of details pairs), w)
  unfolding fetch_txs
  fetch_txs_lem s [] = refl
  fetch_txs_lem s (pair ∷ pairs) = rw (s.archived pair.hash pair.sender, fetch_txs_lem s pairs) refl

  fetch_pages_lem :
      Serves
      → (count page : ℕ)
      → fetch_pages c n count (page + 1) w
        ≡ (ok (reference (take (count * 25) (drop (page * 25) log))), w)
  unfolding fetch_pages get_zeropool_txns
  fetch_pages_lem s zero page = ap (λ l. (ok l, w)) (sym reference_none)
  fetch_pages_lem s (suc count) page =
      let next_page : (page + 1) * 25 ≡ page * 25 + 25 = omega arith in
      let more : 25 + count * 25 ≡ suc count * 25 = omega arith in
      let found = relevant_txs n.account (take 25 (drop (page * 25) log)) in
      rw (s.pages page, fetch_txs_lem s found, fetch_pages_lem s count (page + 1))
        (ap (λ l. (ok l, w))
          (ap (λ l. reference (take 25 (drop (page * 25) log)) ++ reference (take (count * 25) l))
              (ap (λ k. drop k log) next_page ∙ drop-add (page * 25) 25 log)
            ∙ sym (
                reference-append (take 25 (drop (page * 25) log))
                  (take (count * 25) (drop 25 (drop (page * 25) log))))
            ∙ ap (λ l. reference l)
                (sym (take-add 25 (count * 25) (drop (page * 25) log))
                  ∙ ap (λ k. take k (drop (page * 25) log)) more)))

  enough_pages : (k : ℕ) → k ≤ (k / 25 + 1) * 25
  enough_pages k = omega arith

  near_fetch_lem :
      (count : String) (counts : List String)
      → Serves
      → n.tx_counts w ≡ (ok (count ∷ counts), w)
      → n.parse_count count ≡ some (length log)
      → near_fetch c n w ≡ (ok (reference log), w)
  unfolding near_fetch get_tx_count
  near_fetch_lem count counts s counted parsed = elim (Bool-cases (length log == 0)) [
    | inl e ↦
        rw (counted, parsed, e)
          (ap (λ l. (ok l, w)) (sym reference_none)
            ∙ ap (λ l. (ok (reference l), w)) (take-all 0 log (ground arith)))
    | inr e ↦
        rw (counted, parsed, e, fetch_pages_lem s (length log / 25 + 1) 0)
          (ap (λ l. (ok (reference l), w))
            (take-all ((length log / 25 + 1) * 25) log (enough_pages (length log))))
  ]

  calls_of-ArchivedCalls : (txs : List IndexerTx) → ArchivedCalls details txs (calls_of details txs)
  calls_of-ArchivedCalls [] = no_tx
  calls_of-ArchivedCalls (tx ∷ txs) =
      let found : ArchivedTx = details tx.hash tx.sender in
      archived_tx tx txs (transact_calls found.hash found.actions) (calls_of details txs)
        (transact_calls-ActionCalls found.hash found.actions) (calls_of-ArchivedCalls txs)

  -- The indexer counts the entries of its log right and serves it in pages of 25, and the archive
  -- node knows every transaction. Then `fetch_latest_transactions` of the NEAR backend gives
  -- exactly, and in order, the function calls named `transact` among the actions that the archive
  -- node has for those entries of the whole log that are successful, have the account as their
  -- receiver, and have a function call with the method `transact`.
  pub near_fetch-ArchivedCalls :
      (count : String) (counts : List String)
      → Serves
      → n.tx_counts w ≡ (ok (count ∷ counts), w)
      → n.parse_count count ≡ some (length log)
      → (txs : List IndexerTx) × (calls : List TxCalldata) × Relevants n.account log txs
        × ArchivedCalls details txs calls
        × (near_fetch c n w ≡ (ok calls, w))
  near_fetch-ArchivedCalls count counts s counted parsed =
      let txs : List IndexerTx = relevant_txs n.account log in
      (
        txs,
        calls_of details txs,
        relevant_txs-Relevants n.account log,
        calls_of-ArchivedCalls txs,
        near_fetch_lem count counts s counted parsed,
      )
