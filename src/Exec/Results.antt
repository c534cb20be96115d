-- ===== src/Exec/Results.antt =====
-- `?` on a result without a state: `Outcome` as a monad.
use zeropool_relayer_rs.Exec.{Outcome, ok, err, panic}

module _ {A B : Type 0} where
  infixl 5 ◌>>=◌ ◌>>◌
  abbrev pub ◌>>=◌ : Outcome A → (A → Outcome B) → Outcome B
  ok a >>= f = f a
  err e >>= f = err e
  panic >>= f = panic

  abbrev pub ◌>>◌ : Outcome A → Outcome B → Outcome B
  m >> n = m >>= λ _. n
