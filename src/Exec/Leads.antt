-- ===== src/Exec/Leads.antt =====
-- What an action leaves behind, however it ends: a predicate before it and one after it.
use zeropool_relayer_rs.Prelude.{◌≡◌, refl, ◌⊎◌, inl, inr}
use zeropool_relayer_rs.Exec.{Exec, Error, Outcome, ok, err, panic, continue, ◌>>=◌}

module _ {S A : Type 0} where
  pub record Leads (I J : S → Type 0) (m : Exec S A) : Type 0 where
    pub at : (s : S) → I s → J ((m s).1)

module _ {S A B : Type 0} (I J K : S → Type 0) (f : A → Exec S B) (weaken : (s : S) → J s → K s)
    (rest : (a : A) → Leads J K (f a)) where
  Leads-continue : (o : Outcome A) (s : S) → J s → K ((continue o f s).1)
  Leads-continue (ok a) s h = (rest a).at s h
  Leads-continue (err e) s h = weaken s h
  Leads-continue panic s h = weaken s h

  pub Leads-bind : (m : Exec S A) → Leads I J m → Leads I K (m >>= f)
  Leads-bind m first = record { at = λ s h. Leads-continue (m s).0 (m s).1 (first.at s h) }

-- How an outcome can be.
pub Outcome-cases :
    {A : Type 0} (o : Outcome A)
    → ((a : A) × (o ≡ ok a)) ⊎ (((e : Error) × (o ≡ err e)) ⊎ (o ≡ panic))
Outcome-cases (ok a) = inl (a, refl)
Outcome-cases (err e) = inr (inl (e, refl))
Outcome-cases panic = inr (inr refl)
