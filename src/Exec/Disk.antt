-- ===== src/Exec/Disk.antt =====
-- A database file: its committed tables, and how its next I/O calls end (`true` is a failure; past
-- the end of the list every call succeeds). A transaction is a working copy of the tables that
-- `commit` writes back.
use zeropool_relayer_rs.Prelude.{
  Bool, false, ◌≡◌, ◌≢◌, refl, ◌∙◌, List, [], ◌∷◌, arith, if◌then◌else◌,
}
use zeropool_relayer_rs.Exec.{
  Exec, Error, Outcome, ok, err, panic, io_failed, continue, ◌>>=◌, ◌>>◌,
}

pub record Disk (T : Type 0) : Type 0 where
  pub tables : T
  pub faults : List Bool

abbrev pub fault : List Bool → Bool
fault [] = false
fault (b ∷ _) = b

abbrev pub later_faults : List Bool → List Bool
later_faults [] = []
later_faults (_ ∷ bs) = bs

module _ {T : Type 0} where
  -- One I/O call.
  unfoldable pub io : Exec (Disk T) (Unit {0})
  io d =
      (if fault d.faults then err io_failed else ok tt, record d { faults = later_faults d.faults })

  -- `db.begin()?`.
  unfoldable pub begin : Exec (Disk T) T
  unfolding io
  begin = do io; λ d. (ok d.tables, d)

  -- `tx.prepare()?.commit()?`.
  unfoldable pub commit : T → Exec (Disk T) (Unit {0})
  unfolding io
  commit tx = do io; io; λ d. (ok tt, record d { tables = tx })

  -- A disk on which every call succeeds.
  abbrev pub sound : T → Disk T
  sound t = record { tables = t; faults = [] }

module _ {T A : Type 0} where
  -- The action leaves the committed tables alone.
  pub record Reads (m : Exec (Disk T) A) : Type 0 where
    pub at : (d : Disk T) → (m d).1.tables ≡ d.tables

  pub Reads-pure : (r : Outcome A) → Reads (λ d. (r, d))
  Reads-pure r = record { at = λ d. refl }

module _ {T A B : Type 0} where
  Reads-continue :
      (r : Outcome A) (f : A → Exec (Disk T) B) (d : Disk T)
      → ((a : A) → Reads (f a))
      → (continue r f d).1.tables ≡ d.tables
  Reads-continue (ok a) f d h = (h a).at d
  Reads-continue (err e) f d h = refl
  Reads-continue panic f d h = refl

  pub Reads-bind :
      (m : Exec (Disk T) A) (f : A → Exec (Disk T) B)
      → Reads m
      → ((a : A) → Reads (f a))
      → Reads (m >>= f)
  Reads-bind m f hm hf = record { at = λ d. Reads-continue (m d).0 f (m d).1 hf ∙ hm.at d }

module _ {T : Type 0} where
  pub io-Reads : Reads {T = T} io
  unfolding io
  io-Reads = record { at = λ d. refl }

  pub begin-Reads : Reads {T = T} begin
  unfolding begin
  begin-Reads = record { at = λ d. ground arith }

  commit_lem : (tx : T) (d : Disk T) → (commit tx d).0 ≢ ok tt → (commit tx d).1.tables ≡ d.tables
  unfolding commit
  commit_lem tx d h = ground arith

-- Where the action does not return, the committed tables are as before.
pub record IsAtomic {T : Type 0} (m : Exec (Disk T) (Unit {0})) : Type 0 where
  pub at : (d : Disk T) → (m d).0 ≢ ok tt → (m d).1.tables ≡ d.tables

module _ {T : Type 0} where
  pub commit-IsAtomic : (tx : T) → IsAtomic (commit tx)
  commit-IsAtomic tx = record { at = commit_lem tx }

  pub raise-IsAtomic : (e : Error) → IsAtomic {T = T} (λ d. (err e, d))
  raise-IsAtomic e = record { at = λ d h. refl }

module _ {T A : Type 0} where
  IsAtomic-continue :
      (r : Outcome A) (f : A → Exec (Disk T) (Unit {0})) (d : Disk T)
      → ((a : A) → IsAtomic (f a))
      → (continue r f d).0 ≢ ok tt
      → (continue r f d).1.tables ≡ d.tables
  IsAtomic-continue (ok a) f d h ne = (h a).at d ne
  IsAtomic-continue (err e) f d h ne = refl
  IsAtomic-continue panic f d h ne = refl

  pub IsAtomic-bind :
      (m : Exec (Disk T) A) (f : A → Exec (Disk T) (Unit {0}))
      → Reads m
      → ((a : A) → IsAtomic (f a))
      → IsAtomic (m >>= f)
  IsAtomic-bind m f hm hf = record {
    at = λ d h. IsAtomic-continue (m d).0 f (m d).1 hf h ∙ hm.at d;
  }
