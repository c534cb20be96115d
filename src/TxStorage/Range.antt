-- ===== src/TxStorage/Range.antt =====
-- `iter_range` of src/tx_storage.rs.
use zeropool_relayer_rs.Prelude.{ℕ, ◌≡◌, ◌<◌, refl, ap, ◌∙◌, inl, inr, Option, some, List, [], ◌∷◌}
use zeropool_relayer_rs.Exec.{ok}
use zeropool_relayer_rs.Exec.Disk.{sound, io}
use zeropool_relayer_rs.Persy.{AllEntries, HasKey, IsAscending, InRange}
use zeropool_relayer_rs.Crates.{Crates}
use zeropool_relayer_rs.TxStorage.{TxTables, read_entry, read_all, iter_range}
use zeropool_relayer_rs.TxStorage.Entries.{entry, IsSound}

module _ (c : Crates) (x : TxTables c) where
  open c use {PersyId}

  -- The records that the identifiers of a list lead to.
  data Reads : List (ℕ × PersyId) → List (ℕ × List ℕ) → Type 0 where
    all_read : Reads [] []
    one_read :
        (k : ℕ) (id : PersyId) (data_bytes : List ℕ) (l : List (ℕ × PersyId))
        (out : List (ℕ × List ℕ))
        → c.tx_data.read id x.data_records ≡ some data_bytes
        → Reads l out
        → Reads ((k, id) ∷ l) ((k, data_bytes) ∷ out)

  Reads-run :
      {l : List (ℕ × PersyId)} {out : List (ℕ × List ℕ)}
      → Reads l out
      → read_all c l (sound x) ≡ (ok out, sound x)
  unfolding read_all io
  Reads-run all_read = refl
  Reads-run (one_read k id data_bytes l out e rest) = rw (e, Reads-run rest) refl

  Reads-HasKey :
      {l : List (ℕ × PersyId)} {out : List (ℕ × List ℕ)} (j : ℕ)
      → Reads l out
      → HasKey j l
      → HasKey j out
  Reads-HasKey j all_read h = h
  Reads-HasKey j (one_read k id data_bytes l out e rest) (inl same) = inl same
  Reads-HasKey j (one_read k id data_bytes l out e rest) (inr later) =
      inr (Reads-HasKey j rest later)

  Reads-keys :
      {l : List (ℕ × PersyId)} {out : List (ℕ × List ℕ)} (Q : ℕ → Type 0)
      → Reads l out
      → AllEntries (λ k _. Q k) l
      → AllEntries (λ k _. Q k) out
  Reads-keys Q all_read all = all
  Reads-keys Q (one_read k id data_bytes l out e rest) (first, all) = (first, Reads-keys Q rest all)

  Reads-IsAscending :
      {l : List (ℕ × PersyId)} {out : List (ℕ × List ℕ)}
      → Reads l out
      → IsAscending l
      → IsAscending out
  Reads-IsAscending all_read up = up
  Reads-IsAscending (one_read k id data_bytes l out e rest) (first, up) =
      (Reads-keys (λ j. k < j) rest first, Reads-IsAscending rest up)

  module _ (lo : ℕ) (hi : Option ℕ) where
    abbrev Listed : ℕ → PersyId → Type 0
    Listed k id = InRange lo hi k × (c.tx_keys.index.one k x.keys ≡ some id)

    abbrev pub Within : ℕ → List ℕ → Type 0
    Within k data_bytes = InRange lo hi k × (entry c x k ≡ some data_bytes)

    Reads-Within :
        {l : List (ℕ × PersyId)} {out : List (ℕ × List ℕ)}
        → Reads l out
        → AllEntries Listed l
        → AllEntries Within out
    Reads-Within all_read all = all
    Reads-Within (one_read k id data_bytes l out e rest) ((inside, found), all) =
        ((inside, ap (λ o. read_entry c o x.data_records) found ∙ e), Reads-Within rest all)

    found_records :
        IsSound c x
        → (l : List (ℕ × PersyId)) → AllEntries Listed l
        → (out : List (ℕ × List ℕ)) × Reads l out
    found_records s [] all = ([], all_read)
    found_records s ((k, id) ∷ l) ((inside, found), all) =
        let (data_bytes, e) = s.live k id found in
        let (out, rest) = found_records s l all in
        ((k, data_bytes) ∷ out, one_read k id data_bytes l out e rest)

    -- What a list of entries must be to list a range.
    pub record IsListing (out : List (ℕ × List ℕ)) : Type 0 where
      pub ascending : IsAscending out
      pub within : AllEntries Within out
      pub complete :
          (k : ℕ) (id : PersyId)
          → c.tx_keys.index.one k x.keys ≡ some id
          → InRange lo hi k
          → HasKey k out

    pub iter_range_lem :
        IsSound c x
        → (out : List (ℕ × List ℕ)) × (iter_range c lo hi (sound x) ≡ (ok out, sound x))
          × IsListing out
    unfolding iter_range io
    iter_range_lem s =
        let l = c.tx_keys.range lo hi x.keys in
        let holds = c.tx_keys.range_sound lo hi x.keys in
        let (out, reads) = found_records s l holds in
        (
          out,
          Reads-run reads,
          record {
            ascending = Reads-IsAscending reads (c.tx_keys.range_ascending lo hi x.keys);
            within = Reads-Within reads holds;
            complete =
                λ k id e h. Reads-HasKey k reads (c.tx_keys.range_complete lo hi x.keys k id e h);
          },
        )
