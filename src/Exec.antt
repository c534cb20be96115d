-- ===== src/Exec.antt =====
-- How the relayer's functions end, and the disk that they act on. A function that returns
-- `anyhow::Result` ends with a value, with an error, or with a panic (`unwrap`, `expect`, a slice
-- or an index out of range); what was committed before it ended stays, so the state comes back
-- beside every outcome.
pub mod Disk
pub mod Results
pub mod Leads
use zeropool_relayer_rs.Prelude.{ℕ, ◌≡◌, Option, none, some}

-- The errors of the modelled functions: an I/O error of a database, data that does not decode,
-- and one constructor for each message that the source gives.
pub data Error : Type 0 where
  io_failed invalid_data : Error
  rollback_too_high : Error
  job_failed job_not_found : Error
  index_not_in_steps record_not_found : Error
  invalid_index : ℕ → ℕ → Error
  job_cancelled root_not_available : Error
  unexpected_response tx_failed no_tx_count unknown_network : Error
  invalid_profile not_an_integer invalid_root_length not_a_binary_entry : Error
  variable_not_set : Error

pub data Outcome {ℓ} (A : Type ℓ) : Type ℓ where
  ok : A → Outcome A
  err : Error → Outcome A
  panic : Outcome A

abbrev pub Exec : Type 0 → Type 0 → Type 0
Exec S A = S → Outcome A × S

abbrev pub settle : {A : Type 0} → Outcome A → Outcome A
settle (ok a) = ok a
settle (err e) = panic
settle panic = panic

module _ {S A : Type 0} where
  abbrev pub pure : A → Exec S A
  pure a s = (ok a, s)

  abbrev pub raise : Error → Exec S A
  raise e s = (err e, s)

  abbrev pub lift : Outcome A → Exec S A
  lift r s = (r, s)

  -- `expect`, `unwrap`, an index into a slice.
  abbrev pub expect : Option A → Exec S A
  expect none s = (panic, s)
  expect (some a) s = (ok a, s)

  -- `unwrap` of a result: an error panics.
  abbrev pub unwrap : Exec S A → Exec S A
  unwrap m s = let (r, s') = m s in (settle r, s')

module _ {S A B : Type 0} where
  abbrev pub continue : Outcome A → (A → Exec S B) → Exec S B
  continue (ok a) f s = f a s
  continue (err e) f s = (err e, s)
  continue panic f s = (panic, s)

  infixl 5 ◌>>=◌ ◌>>◌
  abbrev pub ◌>>=◌ : Exec S A → (A → Exec S B) → Exec S B
  ◌>>=◌ m f s = let (r, s') = m s in continue r f s'

  abbrev pub ◌>>◌ : Exec S A → Exec S B → Exec S B
  m >> n = m >>= λ _. n

-- A successful first part hands its value and state to the rest.
pub bind_ok :
    {S A B : Type 0} (m : Exec S A) (f : A → Exec S B) (s : S) {a : A} {s' : S}
    → m s ≡ (ok a, s')
    → (m >>= f) s ≡ f a s'
bind_ok m f s h = rw h
