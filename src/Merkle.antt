-- ===== src/Merkle.antt =====
-- `Storage` and `MerkleTree` of src/merkle_tree.rs. Storage and Tree hold the definitions, Spec
-- the abstract view as a list of leaves, the other modules the proofs, and Tests the examples.
pub mod Storage
pub mod Tree
pub mod Keys
pub mod View
pub mod Consistent
pub mod Insert
pub mod Spec
pub mod AddLeaf
pub mod Cut
pub mod Rollback
pub mod RollbackLoop
pub mod RollbackRoots
pub mod RollbackTo
pub mod Open
pub mod Proof
pub mod Atomic
pub mod History
pub mod Grow
mod Tests
