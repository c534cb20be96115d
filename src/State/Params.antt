-- ===== src/State/Params.antt =====
-- The proving and verification keys of src/state.rs: a build has those of groth16 or those of plonk.
use zeropool_relayer_rs.Prelude.{ℕ, Option, List, String}
use zeropool_relayer_rs.Exec.{Outcome, ok}
use zeropool_relayer_rs.Exec.Results.{◌>>=◌}
use zeropool_relayer_rs.Backend.Mock.{or_invalid}

-- The file system and the crates that read the keys of groth16.
pub record Groth16Crates : Type 1 where
  pub Parameters : Type 0
  pub Vk : Type 0
  pub read_to_string : String → Outcome String
  pub read_file : String → Outcome (List ℕ)
  pub from_json : String → Option Vk
  pub read_parameters : List ℕ → Option Parameters

pub record Groth16Params (g : Groth16Crates) : Type 0 where
  pub tree_params : g.Parameters
  pub tree_vk : g.Vk
  pub transfer_vk : g.Vk

unfoldable pub groth16_params : (g : Groth16Crates) → Outcome (Groth16Params g)
groth16_params g = do
  transfer_text ← g.read_to_string "params/transfer_verification_key.json"
  transfer_vk ← or_invalid (g.from_json transfer_text)
  tree_text ← g.read_to_string "params/tree_verification_key.json"
  tree_vk ← or_invalid (g.from_json tree_text)
  tree_params_data ← g.read_file "params/tree_params.bin"
  tree_params ← or_invalid (g.read_parameters tree_params_data)
  ok (record { tree_params = tree_params; tree_vk = tree_vk; transfer_vk = transfer_vk })

-- The same for plonk, whose keys are set up from the circuits of a transfer and of an update of the tree.
pub record PlonkCrates : Type 1 where
  pub Parameters : Type 0
  pub Vk : Type 0
  pub ProvingKey : Type 0
  pub Circuit : Type 0
  pub tree_update : Circuit
  pub c_transfer : Circuit
  pub read_file : String → Outcome (List ℕ)
  pub read_parameters : List ℕ → Option Parameters
  pub setup : Parameters → Circuit → Vk × ProvingKey

pub record PlonkParams (k : PlonkCrates) : Type 0 where
  pub params : k.Parameters
  pub tree_pk : k.ProvingKey
  pub transfer_vk : k.Vk

unfoldable pub plonk_params : (k : PlonkCrates) → Outcome (PlonkParams k)
plonk_params k = do
  plonk_params_data ← k.read_file "params/plonk_params.bin"
  params ← or_invalid (k.read_parameters plonk_params_data)
  let (tree_vk, tree_pk) = k.setup params k.tree_update
  let (transfer_vk, transfer_pk) = k.setup params k.c_transfer
  ok (record { params = params; tree_pk = tree_pk; transfer_vk = transfer_vk })
