-- ===== src/TxStorage/Remove.antt =====
-- `rollback` of src/tx_storage.rs on a disk without faults.
use zeropool_relayer_rs.Prelude.{
  ℕ, ◌%◌, ◌≤◌, ◌<◌, ◌≡◌, ◌≢◌, refl, ap, sym, ◌∙◌, inl, inr, true, false, Bool-cases, Option-cases,
  none, some, List, [], ◌∷◌, ◌==◌, ==_iff, arith, if◌then◌else◌,
}
use zeropool_relayer_rs.Exec.{ok, err, index_not_in_steps, bind_ok}
use zeropool_relayer_rs.Exec.Disk.{sound}
use zeropool_relayer_rs.Persy.{AllEntries, HasKey, IsAscending}
use zeropool_relayer_rs.Crates.{Crates}
use zeropool_relayer_rs.TxStorage.{
  TxTables, stride, remove_entry, remove_all, remove_from, rollback,
}
use zeropool_relayer_rs.TxStorage.Entries.{entry, IsSound}
use zeropool_relayer_rs.TxStorage.Write.{next_of}

AllEntries-zip :
    {V : Type 0} (P Q R : ℕ → V → Type 0)
    → ((k : ℕ) (v : V) → P k v → Q k v → R k v)
    → (l : List (ℕ × V)) → AllEntries P l
    → AllEntries Q l
    → AllEntries R l
AllEntries-zip P Q R f [] p q = tt
AllEntries-zip P Q R f ((k, v) ∷ l) p q = (f k v p.0 q.0, AllEntries-zip P Q R f l p.1 q.1)

AllEntries-HasKey :
    {V : Type 0} (P : ℕ → Type 0) (j : ℕ) (l : List (ℕ × V))
    → AllEntries (λ k _. P k) l
    → HasKey j l
    → P j
AllEntries-HasKey P j [] p h = absurd h
AllEntries-HasKey P j ((k, v) ∷ l) p (inl e) = rw e p.0
AllEntries-HasKey P j ((k, v) ∷ l) p (inr later) = AllEntries-HasKey P j l p.1 later

module _ (c : Crates) where
  open c use {PersyId, same_id, same_id_iff}

  -- One entry is gone, all else is as before.
  record IsRemoval (tx : TxTables c) (k : ℕ) (tx' : TxTables c) : Type 0 where
    sound_after : IsSound c tx'
    key_gone : c.tx_keys.index.one k tx'.keys ≡ none
    keys_kept : (j : ℕ) → j ≢ k → c.tx_keys.index.one j tx'.keys ≡ c.tx_keys.index.one j tx.keys
    entries_kept : (j : ℕ) → j ≢ k → entry c tx' j ≡ entry c tx j
    meta_kept : tx'.meta ≡ tx.meta

  module _ (tx : TxTables c) (s : IsSound c tx) (k : ℕ) (id : PersyId)
      (e : c.tx_keys.index.one k tx.keys ≡ some id) (rest : c.tx_data.Records)
      (reads : (j : PersyId)
        → c.tx_data.read j rest
          ≡ (if same_id id j then none else c.tx_data.read j tx.data_records)) where
    abbrev without : TxTables c
    without = record tx { keys = c.tx_keys.index.remove k tx.keys; data_records = rest }

    differ : (j : ℕ) → j ≢ k → (k == j) ≡ false
    differ j ne = ground (arith, ==_iff k j)

    kept : (j : ℕ) → j ≢ k → c.tx_keys.index.one j without.keys ≡ c.tx_keys.index.one j tx.keys
    kept j ne = rw (c.tx_keys.index.one-remove, differ j ne)

    gone : c.tx_keys.index.one k without.keys ≡ none
    gone = rw (c.tx_keys.index.one-remove, (==_iff k k).1 refl)

    not_k : (j : ℕ) (i : PersyId) → c.tx_keys.index.one j without.keys ≡ some i → j ≢ k
    not_k j i h eq = cc (gone, ap (λ x. c.tx_keys.index.one x without.keys) eq, h)

    read_kept :
        (j : ℕ) (i : PersyId)
        → j ≢ k
        → c.tx_keys.index.one j tx.keys ≡ some i
        → c.tx_data.read i rest ≡ c.tx_data.read i tx.data_records
    read_kept j i ne h = elim (Bool-cases (same_id id i)) [
      | inl same ↦
          absurd (ne (s.distinct j k i h (e ∙ ap (λ x. some x) ((same_id_iff id i).0 same))))
      | inr other ↦ rw (reads, other)
    ]

    entry_kept : (j : ℕ) → j ≢ k → entry c without j ≡ entry c tx j
    entry_kept j ne = elim (Option-cases (c.tx_keys.index.one j tx.keys)) [
      | inl missing ↦ rw (kept j ne, missing)
      | inr (i, h) ↦ rw (kept j ne, h) (read_kept j i ne h)
    ]

    without-IsRemoval : IsRemoval tx k without
    without-IsRemoval = record {
      sound_after = record {
        live = λ j i h.
            let ne = not_k j i h in
            let h' : c.tx_keys.index.one j tx.keys ≡ some i = sym (kept j ne) ∙ h in
            let (b, live) = s.live j i h' in (b, read_kept j i ne h' ∙ live);
        distinct = λ j l i hj hl.
            s.distinct j l i (sym (kept j (not_k j i hj)) ∙ hj) (sym (kept l (not_k l i hl)) ∙ hl);
      };
      key_gone = gone;
      keys_kept = kept;
      entries_kept = entry_kept;
      meta_kept = refl;
    }

  remove_entry_lem :
      (t tx : TxTables c) (k : ℕ) (id : PersyId)
      → IsSound c tx
      → c.tx_keys.index.one k tx.keys ≡ some id
      → (tx' : TxTables c) × (remove_entry c tx k id (sound t) ≡ (ok tx', sound t))
        × IsRemoval tx k tx'
  unfolding remove_entry
  remove_entry_lem t tx k id s e =
      let (b, live) = s.live k id e in
      let (rest, deleted, reads) = c.tx_data.delete_found id tx.data_records live in
      (without tx s k id e rest reads, rw deleted, without-IsRemoval tx s k id e rest reads)

  -- The listed keys are gone, all else is as before.
  record IsPurge (tx : TxTables c) (l : List (ℕ × PersyId)) (tx' : TxTables c) : Type 0 where
    sound_after : IsSound c tx'
    keys_gone : (j : ℕ) → HasKey j l → c.tx_keys.index.one j tx'.keys ≡ none
    keys_kept :
        (j : ℕ) → ¬ HasKey j l → c.tx_keys.index.one j tx'.keys ≡ c.tx_keys.index.one j tx.keys
    entries_kept : (j : ℕ) → ¬ HasKey j l → entry c tx' j ≡ entry c tx j
    meta_kept : tx'.meta ≡ tx.meta

  abbrev Holds : TxTables c → List (ℕ × PersyId) → Type 0
  Holds tx l = AllEntries (λ k id. c.tx_keys.index.one k tx.keys ≡ some id) l

  IsPurge-step :
      (tx tx₁ tx' : TxTables c) (k : ℕ) (id : PersyId) (l : List (ℕ × PersyId))
      → AllEntries (λ j _. k < j) l
      → IsRemoval tx k tx₁
      → IsPurge tx₁ l tx'
      → IsPurge tx ((k, id) ∷ l) tx'
  IsPurge-step tx tx₁ tx' k id l above first later = record {
    sound_after = later.sound_after;
    keys_gone = λ j. elim [
      | inl e ↦ rw e (
          later.keys_kept k (λ h. omega (arith, AllEntries-HasKey (λ j'. k < j') k l above h))
          ∙ first.key_gone)
      | inr h ↦ later.keys_gone j h
    ];
    keys_kept =
        λ j out. later.keys_kept j (λ h. out (inr h)) ∙ first.keys_kept j (λ e. out (inl e));
    entries_kept =
        λ j out. later.entries_kept j (λ h. out (inr h)) ∙ first.entries_kept j (λ e. out (inl e));
    meta_kept = later.meta_kept ∙ first.meta_kept;
  }

  remove_all_lem :
      (t : TxTables c) (l : List (ℕ × PersyId)) (tx : TxTables c)
      → IsSound c tx
      → IsAscending l
      → Holds tx l
      → (tx' : TxTables c) × (remove_all c l tx (sound t) ≡ (ok tx', sound t)) × IsPurge tx l tx'
  unfolding remove_all
  remove_all_lem t [] tx s asc all = (
    tx,
    refl,
    record {
      sound_after = s;
      keys_gone = λ j h. absurd h;
      keys_kept = λ j h. refl;
      entries_kept = λ j h. refl;
      meta_kept = refl;
    },
  )
  remove_all_lem t ((k, id) ∷ l) tx s asc all =
      let (tx₁, run, first) = remove_entry_lem t tx k id s all.0 in
      let all₁ : Holds tx₁ l =
        AllEntries-zip (λ j _. k < j) (λ j i. c.tx_keys.index.one j tx.keys ≡ some i)
          (λ j i. c.tx_keys.index.one j tx₁.keys ≡ some i)
          (λ j i lt h. first.keys_kept j (λ e. omega (arith, e)) ∙ h) l asc.0 all.1 in
      let (tx', run', later) = remove_all_lem t l tx₁ first.sound_after asc.1 all₁ in
      (
        tx',
        bind_ok (remove_entry c tx k id) _ (sound t) run ∙ run',
        IsPurge-step tx tx₁ tx' k id l asc.0 first later,
      )

  -- What a rollback to an index does to the tables.
  pub record IsRollback (t : TxTables c) (index : ℕ) (t' : TxTables c) : Type 0 where
    pub sound_after : IsSound c t'
    pub kept : (j : ℕ) → j < index → entry c t' j ≡ entry c t j
    pub dropped : (j : ℕ) → index ≤ j → entry c t' j ≡ none
    pub next : next_of c t' ≡ index

  module _ (t : TxTables c) (s : IsSound c t) (index : ℕ) where
    abbrev listed : List (ℕ × PersyId)
    listed = c.tx_keys.range index none t.keys

    abbrev InListed : ℕ → PersyId → Type 0
    InListed k id = (index ≤ k) × (c.tx_keys.index.one k t.keys ≡ some id)

    range_holds : AllEntries InListed listed
    range_holds = c.tx_keys.range_sound index none t.keys

    listed_above : (j : ℕ) → HasKey j listed → index ≤ j
    listed_above j h =
        AllEntries-HasKey (λ k. index ≤ k) j listed
          (AllEntries-zip InListed InListed (λ k _. index ≤ k) (λ k id a b. a.0) listed range_holds
            range_holds)
          h

    listed-Holds : Holds t listed
    listed-Holds =
        AllEntries-zip InListed InListed (λ k id. c.tx_keys.index.one k t.keys ≡ some id)
          (λ k id a b. a.1) listed range_holds range_holds

    listed_present :
        (j : ℕ) → HasKey j listed → (id : PersyId) × (c.tx_keys.index.one j t.keys ≡ some id)
    listed_present j h =
        AllEntries-HasKey (λ k. (id : PersyId) × (c.tx_keys.index.one k t.keys ≡ some id)) j listed
          (AllEntries-zip InListed InListed
            (λ k _. (id : PersyId) × (c.tx_keys.index.one k t.keys ≡ some id))
            (λ k id a b. (id, a.1)) listed range_holds range_holds)
          h

    dropped_key :
        (tx' : TxTables c)
        → IsPurge t listed tx'
        → (j : ℕ) → index ≤ j
        → c.tx_keys.index.one j tx'.keys ≡ none
    dropped_key tx' p j h = elim (Option-cases (c.tx_keys.index.one j t.keys)) [
      | inl missing ↦
          p.keys_kept j (λ h'. let (id, e) = listed_present j h' in cc (missing, e)) ∙ missing
      | inr (id, e) ↦ p.keys_gone j (c.tx_keys.range_complete index none t.keys j id e h)
    ]

    remove_from_lem :
        (t' : TxTables c) × (remove_from c index (sound t) ≡ (ok tt, sound t'))
        × IsRollback t index t'
    unfolding remove_from
    remove_from_lem =
        let (tx', run, p) =
          remove_all_lem t listed t s (c.tx_keys.range_ascending index none t.keys) listed-Holds in
        (
          record tx' { meta = c.tx_meta.put "next_index" index tx'.meta },
          bind_ok (remove_all c listed t) _ (sound t) run,
          record {
            sound_after = record { live = p.sound_after.live; distinct = p.sound_after.distinct };
            kept = λ j h. p.entries_kept j (λ h'. omega (arith, listed_above j h'));
            dropped = λ j h. rw (dropped_key tx' p j h);
            next = rw (c.tx_meta.one-put "next_index" "next_index" index tx'.meta);
          },
        )

    -- Where no I/O call fails, a rollback of sound tables to an index in steps of the stride drops
    -- exactly the transactions from that index on, and makes it the next one; any other index is
    -- refused.
    pub rollback-IsRollback :
        (index % stride c ≡ 0
          → (t' : TxTables c) × (rollback c index (sound t) ≡ (ok tt, sound t'))
            × IsRollback t index t')
        × (index % stride c ≢ 0 → rollback c index (sound t) ≡ (err index_not_in_steps, sound t))
    unfolding rollback
    rollback-IsRollback = (
      λ h.
          let e : (index % stride c == 0) ≡ true = ground arith in
          let (t', run, r) = remove_from_lem in (t', rw e run, r),
      λ h. let e : (index % stride c == 0) ≡ false = ground arith in rw e,
    )
