-- ===== src/Sample.antt =====
-- Concrete crates for the examples: numbers as hashes, and tables as functions with a bound. They
-- show that the laws that are assumed of the other crates can hold together.
mod Tables
mod Codec
mod Server
pub mod Payloads
pub mod Relayer
pub mod Requests
pub mod Fetched
pub use Tables.{sample_index, sample_range_index, sample_segment, nat_same}
pub use Codec.{from_unary}
pub use Server.{sample_redis, sample_codec, Memory}
use text.Mathlib.Text.{◌==◌ as str_eq}
use text.Mathlib.TextEquality.{eq_iff}
use zeropool_relayer_rs.Prelude.{
  ℕ, ◌+◌, ◌*◌, ◌==◌, ==_iff, ◌≡◌, refl, ◌↔◌, Bool, Option, none, some, List, [], ◌∷◌, String, arith,
}
use zeropool_relayer_rs.Crates.{Crates}
use Codec.{unary, from_unary-unary}

abbrev first_byte : List ℕ → Option ℕ
first_byte [] = none
first_byte (b ∷ _) = some b

-- Two levels of leaves below the root.
abbrev pub sample : Crates
sample = record {
  Hash = ℕ;
  zero_hash = 0;
  hash_eq = ◌==◌;
  hash_eq_iff = ==_iff;
  poseidon = λ a b. 3 * a + 5 * b + 1;
  to_vec = λ h. h ∷ [];
  try_from_slice = first_byte;
  try_from_slice-to_vec = λ h. refl;
  to_string = unary;
  from_str = from_unary;
  from_str-to_string = from_unary-unary;
  to_big_endian = λ h. h ∷ [];
  out = 127;
  height = 3;
  outplusonelog = 1;
  outplusonelog_le = omega arith;
  data_index = sample_index ◌==◌;
  meta_index = sample_index str_eq;
  roots = sample_index ◌==◌;
  PersyId = ℕ;
  same_id = ◌==◌;
  same_id_iff = ==_iff;
  tx_data = sample_segment;
  tx_keys = sample_range_index;
  tx_meta = sample_index str_eq;
}
