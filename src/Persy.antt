-- ===== src/Persy.antt =====
-- The Persy database (crate `persy`), as far as the relayer uses it: typed indexes in the mode
-- `ValueMode::Replace`. They are a parameter, with the documented behaviour of the calls as laws.
use zeropool_relayer_rs.Prelude.{
  ℕ, ◌≤◌, ◌<◌, ◌≡◌, ◌⊎◌, Bool, Option, none, some, List, [], ◌∷◌, if◌then◌else◌,
}

-- `same` is the equality of the keys.
pub record Index (K V : Type 0) (same : K → K → Bool) : Type 1 where
  pub Table : Type 0
  pub empty : Table
  pub put : K → V → Table → Table
  pub remove : K → Table → Table
  pub one : K → Table → Option V
  pub one-empty : (j : K) → one j empty ≡ none
  pub one-put :
      (j k : K) (v : V) (t : Table) → one j (put k v t) ≡ (if same k j then some v else one j t)
  pub one-remove : (j k : K) (t : Table) → one j (remove k t) ≡ (if same k j then none else one j t)

-- Every entry of a list satisfies the predicate.
abbrev pub AllEntries : {V : Type 0} → (ℕ → V → Type 0) → List (ℕ × V) → Type 0
AllEntries P [] = Unit
AllEntries P ((k, v) ∷ l) = P k v × AllEntries P l

-- The key stands in the list.
abbrev pub HasKey : {V : Type 0} → ℕ → List (ℕ × V) → Type 0
HasKey j [] = ⊥
HasKey j ((k, v) ∷ l) = (j ≡ k) ⊎ HasKey j l

-- Each key is below all later ones.
abbrev pub IsAscending : {V : Type 0} → List (ℕ × V) → Type 0
IsAscending [] = Unit
IsAscending ((k, v) ∷ l) = AllEntries (λ j _. k < j) l × IsAscending l

-- The key lies in the range that begins at `lo`, and ends before `hi` if there is one.
abbrev pub InRange : ℕ → Option ℕ → ℕ → Type 0
InRange lo none k = lo ≤ k
InRange lo (some hi) k = (lo ≤ k) × (k < hi)

-- An index with `range`, which lists the entries of a range of keys in ascending order.
pub record RangeIndex (V : Type 0) (same : ℕ → ℕ → Bool) : Type 1 where
  pub index : Index ℕ V same
  pub open index use *
  pub range : ℕ → Option ℕ → Table → List (ℕ × V)
  pub range_sound :
      (lo : ℕ) (hi : Option ℕ) (t : Table)
      → AllEntries (λ k v. InRange lo hi k × (one k t ≡ some v)) (range lo hi t)
  pub range_complete :
      (lo : ℕ) (hi : Option ℕ) (t : Table) (k : ℕ) (v : V)
      → one k t ≡ some v
      → InRange lo hi k
      → HasKey k (range lo hi t)
  pub range_ascending : (lo : ℕ) (hi : Option ℕ) (t : Table) → IsAscending (range lo hi t)

-- A segment: records of bytes under identifiers that the database gives out.
pub record Segment (RecordId V : Type 0) (same : RecordId → RecordId → Bool) : Type 1 where
  pub Records : Type 0
  pub no_records : Records
  pub insert : V → Records → RecordId × Records
  pub read : RecordId → Records → Option V
  -- `none` is the error for a record that is not there.
  pub delete : RecordId → Records → Option Records
  pub read-no_records : (i : RecordId) → read i no_records ≡ none
  pub read-insert :
      (i : RecordId) (v : V) (s : Records)
      → read i (insert v s).1 ≡ (if same (insert v s).0 i then some v else read i s)
  pub insert_new : (v : V) (s : Records) → read (insert v s).0 s ≡ none
  pub delete_found :
      (i : RecordId) (s : Records) {v : V}
      → read i s ≡ some v
      → (s' : Records) × (delete i s ≡ some s')
        × ((j : RecordId) → read j s' ≡ (if same i j then none else read j s))
