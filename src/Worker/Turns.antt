-- ===== src/Worker/Turns.antt =====
-- Several jobs in `process_job` of src/tx_worker.rs at once, as steps of their phases: a job that waits
-- begins to send when the pool index is at its position, and the pool index moves on when it has
-- stored the transaction.
use zeropool_relayer_rs.Prelude.{
  ℕ, ◌≡◌, ◌≢◌, ◌⊎◌, refl, sym, ap, ◌∙◌, inl, inr, Bool, true, false, Bool-cases, ◌==◌, ==_iff,
  if◌then◌else◌, arith,
}
use zeropool_relayer_rs.Crates.{Crates}
use zeropool_relayer_rs.Worker.{tx_position}
use zeropool_relayer_rs.Worker.Process.{is_turn, next_pool_index}

pub data Phase : Type 0 where
  waiting sending stored gave_up : Phase

abbrev pub is_live : Phase → Bool
is_live waiting = true
is_live sending = true
is_live stored = false
is_live gave_up = false

-- The index of the pool as the relayer sees it, and the phase of each job.
pub record Pool : Type 0 where
  pub pool_index : ℕ
  pub phase : ℕ → Phase

abbrev pub enter : ℕ → Phase → (ℕ → Phase) → ℕ → Phase
enter i p phase j = if i == j then p else phase j

-- `commit_index` gives the index of each job.
module _ (c : Crates) (commit_index : ℕ → ℕ) where
  pub data Step (s : Pool) : Pool → Type 0 where
    begin :
        (i : ℕ)
        → s.phase i ≡ waiting
        → is_turn c s.pool_index (commit_index i) ≡ true
        → Step s (record s { phase = enter i sending s.phase })
    store :
        (i : ℕ)
        → s.phase i ≡ sending
        → Step s
            (record { pool_index = next_pool_index c s.pool_index; phase = enter i stored s.phase })
    give_up : (i : ℕ) → s.phase i ≢ stored → Step s (record s { phase = enter i gave_up s.phase })

  pub data Reach (s : Pool) : Pool → Type 0 where
    here : Reach s s
    next : {t u : Pool} → Reach s t → Step t u → Reach s u

  -- A job that sends is at its position.
  abbrev InTurn : Pool → Type 0
  InTurn s = (i : ℕ) → s.phase i ≡ sending → s.pool_index ≡ tx_position c (commit_index i)

  -- Different jobs that still wait or send have different positions.
  abbrev pub Distinct : Pool → Type 0
  Distinct s =
      (i j : ℕ)
      → is_live (s.phase i) ≡ true
      → is_live (s.phase j) ≡ true
      → tx_position c (commit_index i) ≡ tx_position c (commit_index j)
      → i ≡ j

  -- The phase of a job after another or the same job entered one.
  enter_cases :
      (i j : ℕ) (p q : Phase) (phase : ℕ → Phase)
      → enter i p phase j ≡ q
      → ((i ≡ j) × (p ≡ q)) ⊎ (((i == j) ≡ false) × (phase j ≡ q))
  enter_cases i j p q phase h = elim (Bool-cases (i == j)) [
    | inl same ↦ inl ((==_iff i j).0 same, cc (same, h))
    | inr other ↦ inr (other, cc (other, h))
  ]

  -- A job that is live after a step was live before it.
  Step-live :
      {s u : Pool} (j : ℕ) → Step s u → is_live (u.phase j) ≡ true → is_live (s.phase j) ≡ true
  Step-live {s} j (begin i w turn) h = elim (enter_cases i j sending _ s.phase refl) [
    | inl (same, _) ↦ cc (same, w)
    | inr (_, before) ↦ cc (before, h)
  ]
  Step-live {s} j (store i w) h = elim (enter_cases i j stored _ s.phase refl) [
    | inl (_, clash) ↦ absurd (cc (clash, h))
    | inr (_, before) ↦ cc (before, h)
  ]
  Step-live {s} j (give_up i w) h = elim (enter_cases i j gave_up _ s.phase refl) [
    | inl (_, clash) ↦ absurd (cc (clash, h))
    | inr (_, before) ↦ cc (before, h)
  ]

  Step-Distinct : {s u : Pool} → Distinct s → Step s u → Distinct u
  Step-Distinct distinct step i j hi hj = distinct i j (Step-live i step hi) (Step-live j step hj)

  Step-InTurn : {s u : Pool} → Distinct s → InTurn s → Step s u → InTurn u
  Step-InTurn {s} distinct inv (begin i w turn) j h =
      elim (enter_cases i j sending sending s.phase h) [
        | inl (same, _) ↦
            (==_iff s.pool_index (tx_position c (commit_index i))).0 turn
            ∙ ap (λ k. tx_position c (commit_index k)) same
        | inr (_, before) ↦ inv j before
      ]
  Step-InTurn {s} distinct inv (store i w) j h = elim (enter_cases i j stored sending s.phase h) [
    | inl (_, clash) ↦ absurd (cc clash)
    | inr (other, before) ↦
        let same : i ≡ j =
          distinct i j (ap is_live w) (ap is_live before) (sym (inv i w) ∙ inv j before) in
        absurd (cc (other, (==_iff i j).1 same))
  ]
  Step-InTurn {s} distinct inv (give_up i w) j h =
      elim (enter_cases i j gave_up sending s.phase h) [
        | inl (_, clash) ↦ absurd (cc clash)
        | inr (_, before) ↦ inv j before
      ]

  Reach-keeps : {s u : Pool} → Distinct s → InTurn s → Reach s u → Distinct u × InTurn u
  Reach-keeps distinct inv here = (distinct, inv)
  Reach-keeps distinct inv (next way step) =
      let (d, turns) = Reach-keeps distinct inv way in
      (Step-Distinct d step, Step-InTurn d turns step)

  -- From a state where no job sends and where different jobs that wait have different positions,
  -- by any steps in which a job begins to send, stores or gives up, at most one job sends at a
  -- time, and the pool index is then at its position.
  pub one_sender :
      (s u : Pool) (i j : ℕ)
      → Distinct s
      → ((k : ℕ) → s.phase k ≢ sending)
      → Reach s u
      → u.phase i ≡ sending
      → u.phase j ≡ sending
      → (i ≡ j) × (u.pool_index ≡ tx_position c (commit_index i))
  one_sender s u i j distinct quiet way hi hj =
      let (d, inv) = Reach-keeps distinct (λ k h. absurd (quiet k h)) way in
      (d i j (ap is_live hi) (ap is_live hj) (sym (inv i hi) ∙ inv j hj), inv i hi)

  -- Two jobs with the same commit index that both wait can both be sending.
  pub two_senders :
      (s : Pool) (i j : ℕ)
      → i ≢ j
      → commit_index i ≡ commit_index j
      → s.phase i ≡ waiting
      → s.phase j ≡ waiting
      → is_turn c s.pool_index (commit_index i) ≡ true
      → (u : Pool) × Reach s u × (u.phase i ≡ sending) × (u.phase j ≡ sending)
  two_senders s i j ne same wi wj turn =
      let t : Pool = record s { phase = enter i sending s.phase } in
      let u : Pool = record s { phase = enter j sending t.phase } in
      let apart : (i == j) ≡ false = ground (arith, ==_iff i j) in
      let apart' : (j == i) ≡ false = ground (arith, ==_iff j i) in
      let still : t.phase j ≡ waiting = rw apart wj in
      let turn' : is_turn c s.pool_index (commit_index j) ≡ true = cc (same, turn) in
      (
        u,
        next (next here (begin i wi turn)) (begin j still turn'),
        rw (apart', (==_iff i i).1 refl) refl,
        rw ((==_iff j j).1 refl) refl,
      )
