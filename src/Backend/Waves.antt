-- ===== src/Backend/Waves.antt =====
-- src/backend/waves.rs: the pool contract on Waves.
pub mod Calls
pub mod Fetch
pub mod Setup
use text.Mathlib.Text.{◌==◌ as str_eq}
use zeropool_relayer_rs.Prelude.{
  ℕ, zero, suc, ◌+◌, ◌-◌, ◌*◌, ◌%◌, ◌^◌, ◌≡◌, refl, Bool, true, false, not, Option, none, some,
  List, [], ◌∷◌, ◌++◌, String, ◌==◌, length, if◌then◌else◌,
}
use zeropool_relayer_rs.Exec.{
  Exec, Outcome, ok, err, panic, not_an_integer, invalid_root_length, not_a_binary_entry,
  invalid_profile, pure, raise, lift, ◌>>=◌, ◌>>◌,
}
use zeropool_relayer_rs.Crates.{Crates}
use zeropool_relayer_rs.Tx.{TxCalldata, TxData}
use zeropool_relayer_rs.Config.{WavesConfig}
use zeropool_relayer_rs.Backend.Mock.{or_invalid}

-- The argument of the call, if it is an invocation: its function and its first argument, where that
-- is binary.
pub data TransactionDataInfo : Type 0 where
  invoke : String → Option (List ℕ) → TransactionDataInfo
  other_data : TransactionDataInfo

pub record TransactionInfo : Type 0 where
  pub id : List ℕ
  pub succeeded : Bool
  pub tx_data : TransactionDataInfo

-- An entry of the contract's state; an `i64` is a number or the negative of a number above zero.
pub data Int64 : Type 0 where
  pos : ℕ → Int64
  negsuc : ℕ → Int64

pub data DataEntry : Type 0 where
  integer_entry : Int64 → DataEntry
  binary_entry : List ℕ → DataEntry
  other_entry : DataEntry

-- `value as u64`.
unfoldable pub as_u64 : Int64 → ℕ
as_u64 (pos n) = n % 2 ^ 64
as_u64 (negsuc n) = 2 ^ 64 - 1 - n % 2 ^ 64

unfoldable pub chain_profile : String → Outcome String
chain_profile profile =
    if str_eq profile "MAINNET"
    then ok profile
    else if str_eq profile "TESTNET"
    then ok profile
    else if str_eq profile "STAGENET"
    then ok profile
    else err invalid_profile

-- The node at the pool's address, and the codec of `zeropool_tx::waves`.
pub record WavesNode (c : Crates) (P : Type 0) : Type 1 where
  pub Chain : Type 0
  pub transactions_after : ℕ → Option (List ℕ) → Exec Chain (List TransactionInfo)
  pub pool_index_entry : Exec Chain DataEntry
  pub root_entry : ℕ → Exec Chain DataEntry
  pub from_big_endian : List ℕ → ℕ
  pub write : TxData c P → Outcome (List ℕ)
  pub sign : List ℕ → Exec Chain (List ℕ)
  pub broadcast : List ℕ → Exec Chain (List ℕ)

-- A page: the cursor after it and the calls of `transact` in it. A failed transaction does not move the
-- cursor.
abbrev pub invoked : List ℕ → TransactionDataInfo → List TxCalldata
invoked id other_data = []
invoked id (invoke name none) = []
invoked id (invoke name (some calldata)) =
    if str_eq name "transact" then record { hash = id; calldata = calldata } ∷ [] else []

unfoldable pub read_page :
    Option (List ℕ) → List TransactionInfo → Option (List ℕ) × List TxCalldata
read_page latest_tx_id [] = (latest_tx_id, [])
read_page latest_tx_id (tx ∷ result) =
    let (after, rest) = read_page (if tx.succeeded then some tx.id else latest_tx_id) result in
    (after, if tx.succeeded then invoked tx.id tx.tx_data ++ rest else rest)

module _ (c : Crates) {P : Type 0} (n : WavesNode c P) where
  open n use {Chain}

  -- The loop for as many pages; `none` where it has not ended.
  unfoldable pub waves_pages : ℕ → Option (List ℕ) → Exec Chain (Option (List TxCalldata))
  waves_pages zero latest_tx_id = pure none
  waves_pages (suc rounds) latest_tx_id = do
    result ← n.transactions_after 100 latest_tx_id
    elim result [
      | [] ↦ pure (some [])
      | ◌∷◌ tx later ↦ (do
        let (after, txs) = read_page latest_tx_id (tx ∷ later)
        rest ← waves_pages rounds after
        pure (elim rest [ none ↦ none | some more ↦ some (txs ++ more) ]))
    ]

  unfoldable pub waves_fetch : ℕ → Exec Chain (Option (List TxCalldata))
  unfolding waves_pages
  waves_fetch rounds = waves_pages rounds none

  unfoldable pub waves_send_tx : TxData c P → Exec Chain (List ℕ)
  waves_send_tx tx = do
    tx_bytes ← lift (n.write tx)
    signed_tx ← n.sign tx_bytes
    n.broadcast signed_tx

  -- An answer that is an error counts as index 0.
  abbrev pub index_of : Outcome DataEntry → Outcome ℕ
  index_of (ok (integer_entry value)) = ok (as_u64 value)
  index_of (ok (binary_entry _)) = err not_an_integer
  index_of (ok other_entry) = err not_an_integer
  index_of (err _) = ok 0
  index_of panic = panic

  unfoldable pub waves_pool_index : Exec Chain ℕ
  waves_pool_index w = let (entry, w') = n.pool_index_entry w in (index_of entry, w')

  abbrev pub first_root : ℕ
  first_root = 11469701942666298368112882412133877458305516134926649826543144744382391691533

  -- A `U256` has 32 bytes.
  abbrev pub root_of_entry : Outcome DataEntry → Outcome (Option ℕ)
  root_of_entry (ok (binary_entry value)) =
      if length value == 32 then ok (some (n.from_big_endian value)) else err invalid_root_length
  root_of_entry (ok (integer_entry _)) = err not_a_binary_entry
  root_of_entry (ok other_entry) = err not_a_binary_entry
  root_of_entry (err _) = err not_a_binary_entry
  root_of_entry panic = panic

  unfoldable pub waves_merkle_root : ℕ → Exec Chain (Option ℕ)
  waves_merkle_root index w =
      if index == 0
      then (ok (some first_root), w)
      else let (entry, w') = n.root_entry index w in (root_of_entry entry, w')
