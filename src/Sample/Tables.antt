-- ===== src/Sample/Tables.antt =====
-- Tables as functions. Those with `range` carry a bound on their keys.
use Prim.Native.Nat.{max}
use zeropool_relayer_rs.Prelude.{
  ℕ, zero, suc, ◌+◌, ◌≤◌, ◌<◌, ◌≡◌, refl, ◌⊎◌, inl, inr, Bool, true, false, ◌&&◌, Option, none,
  some, List, [], ◌∷◌, ◌==◌, ==_iff, ltb, leb, arith, if◌then◌else◌,
}
use zeropool_relayer_rs.Persy.{Index, RangeIndex, Segment, AllEntries, HasKey, IsAscending, InRange}

abbrev pub nat_same : ℕ → ℕ → Bool
nat_same = ◌==◌

abbrev pub sample_index : {K V : Type 0} (same : K → K → Bool) → Index K V same
sample_index {K} {V} same = record {
  Table = K → Option V;
  empty = λ _. none;
  put = λ k v t j. if same k j then some v else t j;
  remove = λ k t j. if same k j then none else t j;
  one = λ k t. t k;
  one-empty = λ j. refl;
  one-put = λ j k v t. refl;
  one-remove = λ j k t. refl;
}

pub record Bounded (V : Type 0) : Type 0 where
  pub bound : ℕ
  pub at : ℕ → Option V

abbrev pub look : {V : Type 0} → ℕ → Bounded V → Option V
look k t = if ltb k t.bound then t.at k else none

abbrev pub put_at : {V : Type 0} → ℕ → V → Bounded V → Bounded V
put_at k v t = record { bound = max t.bound (k + 1); at = λ j. if k == j then some v else look j t }

abbrev pub remove_at : {V : Type 0} → ℕ → Bounded V → Bounded V
remove_at k t = record t { at = λ j. if k == j then none else t.at j }

pub look-none : {V : Type 0} (j : ℕ) → look {V = V} j (record { bound = 0; at = λ _. none }) ≡ none
look-none j = ground arith

pub look-put_at :
    {V : Type 0} (j k : ℕ) (v : V) (t : Bounded V)
    → look j (put_at k v t) ≡ (if k == j then some v else look j t)
look-put_at j k v t = ground (arith, ==_iff k j)

pub look-remove_at :
    {V : Type 0} (j k : ℕ) (t : Bounded V)
    → look j (remove_at k t) ≡ (if k == j then none else look j t)
look-remove_at j k t = ground arith

abbrev pub in_range : ℕ → Option ℕ → ℕ → Bool
in_range lo none k = leb lo k
in_range lo (some hi) k = leb lo k && ltb k hi

in_range_iff : (lo : ℕ) (hi : Option ℕ) (k : ℕ) → in_range lo hi k ≡ true → InRange lo hi k
in_range_iff lo none k h = ground arith
in_range_iff lo (some hi) k h = ground arith

in_range_of : (lo : ℕ) (hi : Option ℕ) (k : ℕ) → InRange lo hi k → in_range lo hi k ≡ true
in_range_of lo none k h = ground arith
in_range_of lo (some hi) k h = ground (arith, h.0, h.1)

abbrev pub keep_if : {V : Type 0} → Bool → ℕ → Option V → List (ℕ × V) → List (ℕ × V)
keep_if true k (some v) l = (k, v) ∷ l
keep_if true k none l = l
keep_if false k o l = l

module _ {V : Type 0} (lo : ℕ) (hi : Option ℕ) (t : Bounded V) where
  -- The entries from `k` on, `n` keys.
  abbrev pub scan : ℕ → ℕ → List (ℕ × V)
  scan zero k = []
  scan (suc n) k = keep_if (in_range lo hi k) k (look k t) (scan n (k + 1))

  abbrev pub Good : ℕ → V → Type 0
  Good k v = InRange lo hi k × (look k t ≡ some v)

  keep-Good :
      (b : Bool) (o : Option V) (k : ℕ) (l : List (ℕ × V))
      → in_range lo hi k ≡ b
      → look k t ≡ o
      → AllEntries Good l
      → AllEntries Good (keep_if b k o l)
  keep-Good true (some v) k l e f all = ((in_range_iff lo hi k e, f), all)
  keep-Good true none k l e f all = all
  keep-Good false o k l e f all = all

  pub scan-Good : (n k : ℕ) → AllEntries Good (scan n k)
  scan-Good zero k = tt
  scan-Good (suc n) k =
      keep-Good (in_range lo hi k) (look k t) k (scan n (k + 1)) refl refl (scan-Good n (k + 1))

  keep-above :
      (b : Bool) (o : Option V) (m k : ℕ) (l : List (ℕ × V))
      → m < k
      → AllEntries (λ j _. m < j) l
      → AllEntries (λ j _. m < j) (keep_if b k o l)
  keep-above true (some v) m k l h all = (h, all)
  keep-above true none m k l h all = all
  keep-above false o m k l h all = all

  scan-above : (n k m : ℕ) → m < k → AllEntries (λ j _. m < j) (scan n k)
  scan-above zero k m h = tt
  scan-above (suc n) k m h =
      keep-above (in_range lo hi k) (look k t) m k (scan n (k + 1)) h
        (scan-above n (k + 1) m (omega arith))

  keep-IsAscending :
      (b : Bool) (o : Option V) (k : ℕ) (l : List (ℕ × V))
      → AllEntries (λ j _. k < j) l
      → IsAscending l
      → IsAscending (keep_if b k o l)
  keep-IsAscending true (some v) k l all asc = (all, asc)
  keep-IsAscending true none k l all asc = asc
  keep-IsAscending false o k l all asc = asc

  pub scan-IsAscending : (n k : ℕ) → IsAscending (scan n k)
  scan-IsAscending zero k = tt
  scan-IsAscending (suc n) k =
      keep-IsAscending (in_range lo hi k) (look k t) k (scan n (k + 1))
        (scan-above n (k + 1) k (omega arith)) (scan-IsAscending n (k + 1))

  keep-later :
      (b : Bool) (o : Option V) (j k : ℕ) (l : List (ℕ × V))
      → HasKey j l
      → HasKey j (keep_if b k o l)
  keep-later true (some v) j k l h = inr h
  keep-later true none j k l h = h
  keep-later false o j k l h = h

  here_or_later : (j k : ℕ) → k ≤ j → (k ≡ j) ⊎ (k + 1 ≤ j)
  here_or_later j k h = omega arith

  pub scan_complete :
      (n k j : ℕ) (v : V)
      → look j t ≡ some v
      → InRange lo hi j
      → k ≤ j
      → j < k + n
      → HasKey j (scan n k)
  scan_complete zero k j v e r low high = absurd (omega arith)
  scan_complete (suc n) k j v e r low high = elim (here_or_later j k low) [
    | inl same ↦ rw (same, e, in_range_of lo hi j r) (inl refl)
    | inr later ↦
        keep-later (in_range lo hi k) (look k t) j k (scan n (k + 1))
          (scan_complete n (k + 1) j v e r later (omega arith))
  ]

  pub within : (j : ℕ) (v : V) → look j t ≡ some v → j < 0 + t.bound
  within j v e = ground arith

abbrev pub sample_range_index : {V : Type 0} → RangeIndex V ◌==◌
sample_range_index {V} = record {
  index = record {
    Table = Bounded V;
    empty = record { bound = 0; at = λ _. none };
    put = put_at;
    remove = remove_at;
    one = look;
    one-empty = look-none;
    one-put = look-put_at;
    one-remove = look-remove_at;
  };
  range = λ lo hi t. scan lo hi t t.bound 0;
  range_sound = λ lo hi t. scan-Good lo hi t t.bound 0;
  range_complete = λ lo hi t k v e r.
      scan_complete lo hi t t.bound 0 k v e r (omega arith) (within lo hi t k v e);
  range_ascending = λ lo hi t. scan-IsAscending lo hi t t.bound 0;
}

abbrev pub erase : {V : Type 0} → ℕ → Option V → Bounded V → Option (Bounded V)
erase i none s = none
erase i (some v) s = some (remove_at i s)

abbrev pub add_next : {V : Type 0} → V → Bounded V → ℕ × Bounded V
add_next v s = (s.bound, put_at s.bound v s)

pub add_next_new : {V : Type 0} (v : V) (s : Bounded V) → look (add_next v s).0 s ≡ none
add_next_new v s = ground arith

abbrev pub sample_segment : {V : Type 0} → Segment ℕ V ◌==◌
sample_segment {V} = record {
  Records = Bounded V;
  no_records = record { bound = 0; at = λ _. none };
  insert = add_next;
  read = look;
  delete = λ i s. erase i (look i s) s;
  read-no_records = look-none;
  read-insert = λ i v s. look-put_at i s.bound v s;
  insert_new = add_next_new;
  delete_found = λ i s {v} e. (remove_at i s, rw e, λ j. look-remove_at j i s);
}
