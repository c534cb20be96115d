-- ===== src/Sample/Codec.antt =====
-- Numbers in unary notation.
use Prim.Native.String.{String}
use zeropool_relayer_rs.Prelude.{ℕ, zero, suc, ◌≡◌, refl, Option, none, some}

abbrev pub unary : ℕ → String
unary zero = String.[]
unary (suc n) = String.◌∷◌ "x" (unary n)

abbrev pub bump : Option ℕ → Option ℕ
bump none = none
bump (some n) = some (suc n)

abbrev pub from_unary : String → Option ℕ
from_unary String.[] = some 0
from_unary (String.◌∷◌ _ s) = bump (from_unary s)

pub from_unary-unary : (n : ℕ) → from_unary (unary n) ≡ some n
from_unary-unary zero = refl
from_unary-unary (suc n) = rw (from_unary-unary n)
