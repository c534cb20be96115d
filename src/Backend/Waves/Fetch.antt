-- ===== src/Backend/Waves/Fetch.antt =====
-- The loop of `fetch_latest_transactions` of src/backend/waves.rs: where it ends, and where it does not.
use mathlib.Core.List.{append_assoc}
use zeropool_relayer_rs.Prelude.{
  ℕ, zero, suc, ◌<◌, ◌≡◌, refl, sym, ap, ◌∙◌, ◌⊎◌, inl, inr, Bool-cases, false, Option, none, some,
  List, [], ◌∷◌, ◌++◌, take, drop, length, length-append, if◌then◌else◌, arith,
}
use zeropool_relayer_rs.Exec.{ok}
use zeropool_relayer_rs.Crates.{Crates}
use zeropool_relayer_rs.Tx.{TxCalldata}
use zeropool_relayer_rs.Backend.Waves.{
  TransactionInfo, WavesNode, read_page, waves_pages, waves_fetch,
}
use zeropool_relayer_rs.Backend.Waves.Calls.{
  TransactCalls, no_tx, TransactCalls-append, read_page-TransactCalls,
}

-- No transaction succeeded.
abbrev pub AllFailed : List TransactionInfo → Type 0
AllFailed [] = Unit
AllFailed (tx ∷ txs) = (tx.succeeded ≡ false) × AllFailed txs

read_page-AllFailed :
    (cursor : Option (List ℕ)) (page : List TransactionInfo)
    → AllFailed page
    → (read_page cursor page).0 ≡ cursor
unfolding read_page
read_page-AllFailed cursor [] all = refl
read_page-AllFailed cursor (tx ∷ txs) all = rw (all.0) (read_page-AllFailed cursor txs all.1)

failed_calls :
    (cursor : Option (List ℕ)) (page : List TransactionInfo)
    → AllFailed page
    → (read_page cursor page).1 ≡ []
unfolding read_page
failed_calls cursor [] all = refl
failed_calls cursor (tx ∷ txs) all = rw (all.0) (failed_calls cursor txs all.1)

-- Failed transactions at the end of a page give no calls.
read_page-append :
    (cursor : Option (List ℕ)) (page fails : List TransactionInfo)
    → AllFailed fails
    → (read_page cursor (page ++ fails)).1 ≡ (read_page cursor page).1
unfolding read_page
read_page-append cursor [] fails all = failed_calls cursor fails all
read_page-append cursor (tx ∷ txs) fails all =
    rw (read_page-append (if tx.succeeded then some tx.id else cursor) txs fails all) refl

-- A page with its last transaction that succeeded, where the cursor then stands.
record Split (page : List TransactionInfo) : Type 0 where
  before : List TransactionInfo
  tx : TransactionInfo
  fails : List TransactionInfo
  split : page ≡ before ++ tx ∷ fails
  all_failed : AllFailed fails
  cursor_after : (cursor : Option (List ℕ)) → (read_page cursor page).0 ≡ some tx.id

page-Split : (page : List TransactionInfo) → AllFailed page ⊎ Split page
unfolding read_page
page-Split [] = inl tt
page-Split (tx ∷ txs) = elim (page-Split txs) [
  | inr s ↦ inr (record {
    before = tx ∷ s.before;
    tx = s.tx;
    fails = s.fails;
    split = ap (λ l. tx ∷ l) s.split;
    all_failed = s.all_failed;
    cursor_after = λ cursor. s.cursor_after (if tx.succeeded then some tx.id else cursor);
  })
  | inl failed ↦ elim (Bool-cases tx.succeeded) [
    | inl good ↦ inr (record {
      before = [];
      tx = tx;
      fails = txs;
      split = refl;
      all_failed = failed;
      cursor_after = λ cursor. rw good (read_page-AllFailed (some tx.id) txs failed);
    })
    | inr bad ↦ inl (bad, failed)
  ]
]

-- Among each 100 transactions in a row, and among the last ones, one succeeded.
abbrev pub NeverStalls : List TransactionInfo → Type 0
NeverStalls [] = Unit
NeverStalls (tx ∷ txs) = (¬ AllFailed (take 100 (tx ∷ txs))) × NeverStalls txs

stalls_after :
    (before later : List TransactionInfo) → NeverStalls (before ++ later) → NeverStalls later
stalls_after [] later h = h
stalls_after (tx ∷ before) later h = stalls_after before later h.1

take-drop : (k : ℕ) (txs : List TransactionInfo) → txs ≡ take k txs ++ drop k txs
take-drop zero txs = refl
take-drop (suc k) [] = refl
take-drop (suc k) (tx ∷ txs) = ap (λ l. tx ∷ l) (take-drop k txs)

module _ (c : Crates) {P : Type 0} (n : WavesNode c P) (w : n.Chain) where
  -- After each transaction the node gives up to 100 of those that follow.
  abbrev pub Follows : List TransactionInfo → Type 0
  Follows [] = Unit
  Follows (tx ∷ later) =
      (n.transactions_after 100 (some tx.id) w ≡ (ok (take 100 later), w)) × Follows later

  Follows-later :
      (before later : List TransactionInfo) (tx : TransactionInfo)
      → Follows (before ++ tx ∷ later)
      → (n.transactions_after 100 (some tx.id) w ≡ (ok (take 100 later), w)) × Follows later
  Follows-later [] later tx h = h
  Follows-later (first ∷ before) later tx h = Follows-later before later tx h.1

  -- The loop has the rest of the log before it.
  pages_end :
      (rounds : ℕ) (cursor : Option (List ℕ)) (rest : List TransactionInfo)
      → n.transactions_after 100 cursor w ≡ (ok (take 100 rest), w)
      → Follows rest
      → NeverStalls rest
      → length rest < rounds
      → (calls : List TxCalldata) × (waves_pages c n rounds cursor w ≡ (ok (some calls), w))
        × TransactCalls rest calls
  unfolding waves_pages
  pages_end zero cursor rest e follows stalls enough = absurd (omega (arith, enough))
  pages_end (suc rounds) cursor [] e follows stalls enough = ([], rw e refl, no_tx)
  pages_end (suc rounds) cursor (tx ∷ later) e follows stalls enough =
      elim (page-Split (take 100 (tx ∷ later))) [
        | inl all ↦ absurd (stalls.0 all)
        | inr s ↦
            let page : List TransactionInfo = take 100 (tx ∷ later) in
            let others : List TransactionInfo = drop 100 (tx ∷ later) in
            let left : List TransactionInfo = s.fails ++ others in
            let whole : tx ∷ later ≡ s.before ++ s.tx ∷ left =
              take-drop 100 (tx ∷ later)
              ∙ ap (λ l. l ++ others) s.split
              ∙ append_assoc s.before (s.tx ∷ s.fails) others in
            let (next, follows') = Follows-later s.before left s.tx (rw (← whole) follows) in
            let stalls' = (stalls_after s.before (s.tx ∷ left) (rw (← whole) stalls)).1 in
            let fewer : length left < rounds =
              omega (arith, enough, ap length whole, length-append s.before (s.tx ∷ left)) in
            let (calls, run, rest) =
              pages_end rounds (some s.tx.id) left next follows' stalls' fewer in
            let first : List TransactionInfo = s.before ++ s.tx ∷ [] in
            let same : (read_page cursor page).1 ≡ (read_page cursor first).1 =
              ap (λ l. (read_page cursor l).1)
                (s.split ∙ sym (append_assoc s.before (s.tx ∷ []) s.fails))
              ∙ read_page-append cursor first s.fails s.all_failed in
            (
              (read_page cursor page).1 ++ calls,
              rw (e, s.cursor_after cursor, run) refl,
              rw (same, whole, ← append_assoc s.before (s.tx ∷ []) left)
                  (TransactCalls-append (read_page-TransactCalls cursor first) rest),
            )
      ]

  -- The node gives up to 100 transactions from the start of its log, and after each transaction up
  -- to 100 of those that follow it; among each 100 transactions in a row, and among those at the
  -- end where fewer are left, at least one succeeded. Then the loop of `fetch_latest_transactions`
  -- of the Waves backend ends within any number of rounds above the length of the log, with
  -- exactly the invocations of `transact` that succeeded and have a binary first argument, in
  -- order.
  pub waves_fetch_ends :
      (log : List TransactionInfo) (rounds : ℕ)
      → n.transactions_after 100 none w ≡ (ok (take 100 log), w)
      → Follows log
      → NeverStalls log
      → length log < rounds
      → (calls : List TxCalldata) × (waves_fetch c n rounds w ≡ (ok (some calls), w))
        × TransactCalls log calls
  unfolding waves_fetch
  waves_fetch_ends log rounds first follows stalls enough =
      pages_end rounds none log first follows stalls enough

  pages_stuck :
      (rounds : ℕ) (cursor : Option (List ℕ)) (tx : TransactionInfo) (txs : List TransactionInfo)
      → n.transactions_after 100 cursor w ≡ (ok (tx ∷ txs), w)
      → AllFailed (tx ∷ txs)
      → waves_pages c n rounds cursor w ≡ (ok none, w)
  unfolding waves_pages
  pages_stuck zero cursor tx txs e all = refl
  pages_stuck (suc rounds) cursor tx txs e all =
      rw (e, read_page-AllFailed cursor (tx ∷ txs) all, pages_stuck rounds cursor tx txs e all) refl

  -- From a cursor on, some page that is not empty has only failed transactions.
  pub data MeetsFailures : Option (List ℕ) → Type 0 where
    now :
        (cursor : Option (List ℕ)) (tx : TransactionInfo) (txs : List TransactionInfo)
        → n.transactions_after 100 cursor w ≡ (ok (tx ∷ txs), w)
        → AllFailed (tx ∷ txs)
        → MeetsFailures cursor
    later :
        (cursor : Option (List ℕ)) (tx : TransactionInfo) (txs : List TransactionInfo)
        → n.transactions_after 100 cursor w ≡ (ok (tx ∷ txs), w)
        → MeetsFailures (read_page cursor (tx ∷ txs)).0
        → MeetsFailures cursor

  pages_never_end :
      (rounds : ℕ) (cursor : Option (List ℕ))
      → MeetsFailures cursor
      → waves_pages c n rounds cursor w ≡ (ok none, w)
  unfolding waves_pages
  pages_never_end rounds _ (now cursor tx txs e all) = pages_stuck rounds cursor tx txs e all
  pages_never_end zero _ (later cursor tx txs e more) = refl
  pages_never_end (suc rounds) _ (later cursor tx txs e more) =
      rw (e, pages_never_end rounds (read_page cursor (tx ∷ txs)).0 more) refl

  -- Where some page that the loop of `fetch_latest_transactions` of the Waves backend comes to is
  -- not empty and has only failed transactions, the loop does not end within any number of rounds.
  pub waves_fetch_never_ends :
      (rounds : ℕ) → MeetsFailures none → waves_fetch c n rounds w ≡ (ok none, w)
  unfolding waves_fetch
  waves_fetch_never_ends rounds more = pages_never_end rounds none more
