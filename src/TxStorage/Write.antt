-- ===== src/TxStorage/Write.antt =====
-- `set` and `push` of src/tx_storage.rs on a disk without faults.
use zeropool_relayer_rs.Prelude.{
  ℕ, ◌+◌, ◌%◌, ◌^◌, ◌≤◌, ◌<◌, ◌≡◌, ◌≢◌, refl, sym, ◌∙◌, inl, inr, true, false, Bool-cases,
  Option-cases, some, List, ◌==◌, ==_iff, ltb, unwrap_or, arith, if◌then◌else◌,
}
use zeropool_relayer_rs.Exec.{ok, err, index_not_in_steps, invalid_index}
use zeropool_relayer_rs.Exec.Disk.{sound}
use zeropool_relayer_rs.Crates.{Crates}
use zeropool_relayer_rs.TxStorage.{
  TxTables, stride, record_bytes, write_entry, set, next_index, push, get,
}
use zeropool_relayer_rs.TxStorage.Entries.{entry, IsSound}

module _ (c : Crates) where
  open c use {Hash, PersyId, same_id, same_id_iff}

  abbrev pub next_of : TxTables c → ℕ
  next_of t = unwrap_or (c.tx_meta.one "next_index" t.meta) 0

  module _ (t : TxTables c) (s : IsSound c t) (i : ℕ) (buf : List ℕ) where
    -- The tables that `write_entry` leaves.
    abbrev pub written : TxTables c
    written = record {
      data_records = (c.tx_data.insert buf t.data_records).1;
      keys = c.tx_keys.index.put i (c.tx_data.insert buf t.data_records).0 t.keys;
      meta = c.tx_meta.put "next_index" ((i + stride c) % 2 ^ 64) t.meta;
    }

    write_entry_lem : write_entry c i buf (sound t) ≡ (ok tt, sound written)
    unfolding write_entry
    write_entry_lem = refl

    abbrev new_id : PersyId
    new_id = (c.tx_data.insert buf t.data_records).0

    -- The identifier that the database gives out belongs to no key yet.
    new_id_ne :
        (j : ℕ) (id : PersyId) → c.tx_keys.index.one j t.keys ≡ some id → same_id new_id id ≡ false
    new_id_ne j id e = elim (Bool-cases (same_id new_id id)) [
      | inl same ↦
          let (b, live) = s.live j id e in
          absurd
            (cc ((same_id_iff new_id id).0 same, c.tx_data.insert_new buf t.data_records, live))
      | inr other ↦ other
    ]

    read_old :
        (j : ℕ) (id : PersyId)
        → c.tx_keys.index.one j t.keys ≡ some id
        → c.tx_data.read id written.data_records ≡ c.tx_data.read id t.data_records
    read_old j id e = rw (c.tx_data.read-insert, new_id_ne j id e)

    key_self : c.tx_keys.index.one i written.keys ≡ some new_id
    key_self = rw (c.tx_keys.index.one-put, (==_iff i i).1 refl)

    key_other :
        (j : ℕ)
        → (i == j) ≡ false
        → c.tx_keys.index.one j written.keys ≡ c.tx_keys.index.one j t.keys
    key_other j ne = rw (c.tx_keys.index.one-put, ne)

    read_new : c.tx_data.read new_id written.data_records ≡ some buf
    read_new = rw (c.tx_data.read-insert, (same_id_iff new_id new_id).1 refl)

    entry-written_self : entry c written i ≡ some buf
    entry-written_self = rw key_self read_new

    entry-written_other : (j : ℕ) → (i == j) ≡ false → entry c written j ≡ entry c t j
    entry-written_other j ne = elim (Option-cases (c.tx_keys.index.one j t.keys)) [
      | inl missing ↦ rw (key_other j ne, missing)
      | inr (id, e) ↦ rw (key_other j ne, e) (read_old j id e)
    ]

    -- No other key leads to the new record.
    clash :
        (j k : ℕ) (id : PersyId)
        → (i == j) ≡ true
        → (i == k) ≡ false
        → c.tx_keys.index.one j written.keys ≡ some id
        → c.tx_keys.index.one k written.keys ≡ some id
        → ⊥
    clash j k id ij ik ej ek =
        let mine : new_id ≡ id = cc (c.tx_keys.index.one-put j i new_id t.keys, ij, ej) in
        cc (new_id_ne k id (sym (key_other k ik) ∙ ek), (same_id_iff new_id id).1 mine)

    pub written-IsSound : IsSound c written
    written-IsSound = record {
      live = λ j id e. elim (Bool-cases (i == j)) [
        | inl same ↦ (buf, cc (c.tx_keys.index.one-put j i new_id t.keys, same, e, read_new))
        | inr other ↦
            let e' : c.tx_keys.index.one j t.keys ≡ some id = sym (key_other j other) ∙ e in
            let (b, live) = s.live j id e' in (b, read_old j id e' ∙ live)
      ];
      distinct = λ j k id ej ek. elim (Bool-cases (i == j)) [
        | inl ij ↦ elim (Bool-cases (i == k)) [
          | inl ik ↦ ground (arith, ==_iff i j, ==_iff i k)
          | inr ik ↦ absurd (clash j k id ij ik ej ek)
        ]
        | inr ij ↦ elim (Bool-cases (i == k)) [
          | inl ik ↦ absurd (clash k j id ik ij ek ej)
          | inr ik ↦ s.distinct j k id (sym (key_other j ij) ∙ ej) (sym (key_other k ik) ∙ ek)
        ]
      ];
    }

    pub entry-written : (j : ℕ) → entry c written j ≡ (if i == j then some buf else entry c t j)
    entry-written j = elim (Bool-cases (i == j)) [
      | inl same ↦ rw same (rw (← (==_iff i j).0 same) entry-written_self)
      | inr other ↦ rw other (entry-written_other j other)
    ]

    pub next_of-written : next_of written ≡ (i + stride c) % 2 ^ 64
    next_of-written =
        rw (c.tx_meta.one-put "next_index" "next_index" ((i + stride c) % 2 ^ 64) t.meta)

  -- What a successful write of `buf` at index `i` does to the tables.
  pub record IsWrite (t : TxTables c) (i : ℕ) (buf : List ℕ) (t' : TxTables c) : Type 0 where
    pub sound_after : IsSound c t'
    pub entries : (j : ℕ) → entry c t' j ≡ (if i == j then some buf else entry c t j)
    pub next : next_of t' ≡ (i + stride c) % 2 ^ 64

  module _ (t : TxTables c) (s : IsSound c t) (i : ℕ) (out_commit : Hash)
      (tx_hash memo : List ℕ) where
    abbrev bytes : List ℕ
    bytes = record_bytes c out_commit tx_hash memo

    written-IsWrite : IsWrite t i bytes (written t s i bytes)
    written-IsWrite = record {
      sound_after = written-IsSound t s i bytes;
      entries = entry-written t s i bytes;
      next = next_of-written t s i bytes;
    }

    -- Where no I/O call fails, `set` on sound tables writes the transaction at any index in steps
    -- of the stride, also above the next one, and moves the next index behind it; any other index
    -- is refused and nothing changes.
    pub set_lem :
        (i % stride c ≡ 0
          → (t' : TxTables c) × (set c i out_commit tx_hash memo (sound t) ≡ (ok tt, sound t'))
            × IsWrite t i bytes t')
        × (i % stride c ≢ 0
            → set c i out_commit tx_hash memo (sound t) ≡ (err index_not_in_steps, sound t))
    unfolding set
    set_lem = (
      λ h.
          let e : (i % stride c == 0) ≡ true = ground arith in
          (written t s i bytes, rw e (write_entry_lem t s i bytes), written-IsWrite),
      λ h. let e : (i % stride c == 0) ≡ false = ground arith in rw e,
    )

    -- Where no I/O call fails, `push` to sound tables writes the transaction at any index up to
    -- the next one and moves the next index behind it; any index above is refused and nothing
    -- changes.
    pub push_lem :
        (i ≤ next_of t
          → (t' : TxTables c) × (push c i out_commit tx_hash memo (sound t) ≡ (ok tt, sound t'))
            × IsWrite t i bytes t')
        × (next_of t < i
            → push c i out_commit tx_hash memo (sound t)
              ≡ (err (invalid_index (next_of t) i), sound t))
    unfolding push next_index
    push_lem = (
      λ h.
          let e : ltb (next_of t) i ≡ false = ground arith in
          (written t s i bytes, rw e (write_entry_lem t s i bytes), written-IsWrite),
      λ h. let e : ltb (next_of t) i ≡ true = ground arith in rw e,
    )

  get_lem : (t : TxTables c) (j : ℕ) → get c j (sound t) ≡ (ok (entry c t j), sound t)
  unfolding get
  get_lem t j = refl

  -- A `push` that is accepted on sound tables, at an index j up to the next one, is refused after
  -- a `set` at an index i whose successor in steps of the stride is below j: the update moves the
  -- next index back. No I/O call fails, and j fits in 64 bits.
  pub set-then-push :
      (t : TxTables c) (i j : ℕ) (h : Hash) (hash memo : List ℕ)
      → IsSound c t
      → i % stride c ≡ 0
      → i + stride c < j
      → j ≤ next_of t
      → j < 2 ^ 64
      → (t' : TxTables c) × (set c i h hash memo (sound t) ≡ (ok tt, sound t'))
        × (push c j h hash memo (sound t') ≡ (err (invalid_index (i + stride c) j), sound t'))
        × ((t'' : TxTables c) × (push c j h hash memo (sound t) ≡ (ok tt, sound t'')))
  set-then-push t i j h hash memo s aligned above before bound =
      let (t', run, w) = (set_lem t s i h hash memo).0 aligned in
      let (t'', run', w') = (push_lem t s j h hash memo).0 before in
      let next : next_of t' ≡ i + stride c = w.next ∙ omega arith in
      (
        t',
        run,
        rw (← next) ((push_lem t' w.sound_after j h hash memo).1 (omega (arith, next))),
        (t'', run'),
      )
