-- ===== src/Crates.antt =====
-- What the relayer takes from other crates: the field and the hash of `fawkes-crypto`, the codecs
-- of `borsh` and of `Num`, the constants of `libzeropool`, and the Persy indexes and segment of `merkle_tree.rs` and `tx_storage.rs`.
-- All are parameters, with documented behaviour as laws.
use text.Mathlib.Text.{◌==◌ as str_eq}
use zeropool_relayer_rs.Prelude.{ℕ, ◌==◌, ◌≤◌, ◌≡◌, ◌↔◌, Bool, true, Option, some, List, String}
use zeropool_relayer_rs.Persy.{Index, RangeIndex, Segment}

pub record Crates : Type 1 where
  -- `Num<Fr>` with its equality, `Hash::ZERO`, and `poseidon` at `POOL_PARAMS.compress()`.
  pub Hash : Type 0
  pub zero_hash : Hash
  pub hash_eq : Hash → Hash → Bool
  pub hash_eq_iff : (a b : Hash) → (hash_eq a b ≡ true) ↔ (a ≡ b)
  pub poseidon : Hash → Hash → Hash
  -- `borsh::to_vec` and `BorshDeserialize::try_from_slice`.
  pub to_vec : Hash → List ℕ
  pub try_from_slice : List ℕ → Option Hash
  pub try_from_slice-to_vec : (h : Hash) → try_from_slice (to_vec h) ≡ some h
  -- `to_string` and `from_str` of `Num<Fr>`.
  pub to_string : Hash → String
  pub from_str : String → Option Hash
  pub from_str-to_string : (h : Hash) → from_str (to_string h) ≡ some h
  -- `to_uint().to_big_endian()` of a hash.
  pub to_big_endian : Hash → List ℕ
  -- `constants::OUT`.
  pub out : ℕ
  -- `constants::HEIGHT` and `constants::OUTPLUSONELOG`.
  pub height : ℕ
  pub outplusonelog : ℕ
  pub outplusonelog_le : outplusonelog ≤ height
  -- The three indexes of the tree's database (merkle_tree.rs).
  pub data_index : Index ℕ (List ℕ) ◌==◌
  pub meta_index : Index String ℕ str_eq
  pub roots : Index ℕ String ◌==◌
  -- The segment "data" and the indexes "keys" and "meta" of tx_storage.rs.
  pub PersyId : Type 0
  pub same_id : PersyId → PersyId → Bool
  pub same_id_iff : (a b : PersyId) → (same_id a b ≡ true) ↔ (a ≡ b)
  pub tx_data : Segment PersyId (List ℕ) same_id
  pub tx_keys : RangeIndex PersyId ◌==◌
  pub tx_meta : Index String ℕ str_eq
