-- ===== src/Chain/Merkle.antt =====
-- The Merkle root over the hashes of a block's transactions: merkle_root of src/chain.c. The hash
-- of sha256.c is a parameter.
pub mod Mutation
use namespace_indexer.Common.{
  ℕ, zero, suc, Bool, true, false, ◌||◌, List, [], ◌∷◌, ◌++◌, Option, none, some, ◌==◌, length,
  le_write,
}
use namespace_indexer.Chain.Tx.{sha256d}

-- A supplied pair of equal hashes, before a last one without a partner is paired with itself.
unfoldable pub duplicate_pair : List ℕ → Bool
duplicate_pair [] = false
duplicate_pair (a ∷ []) = false
duplicate_pair (a ∷ b ∷ rest) = a == b || duplicate_pair rest

module _ (sha256 : List ℕ → ℕ) where
  unfoldable pub node : ℕ → ℕ → ℕ
  unfolding le_write
  node a b = sha256d sha256 (le_write 32 a ++ le_write 32 b)

  unfoldable pub merkle_level : List ℕ → List ℕ
  merkle_level [] = []
  merkle_level (a ∷ []) = node a a ∷ []
  merkle_level (a ∷ b ∷ rest) = node a b ∷ merkle_level rest

  -- `while (n > 1)`: the hash that is left and the flag, on fuel.
  unfoldable pub merkle_loop : ℕ → List ℕ → Bool → Option (ℕ × Bool)
  unfolding merkle_level duplicate_pair
  merkle_loop zero [] mutated = none
  merkle_loop zero (h ∷ []) mutated = some (h, mutated)
  merkle_loop zero (h ∷ g ∷ rest) mutated = none
  merkle_loop (suc fuel) [] mutated = none
  merkle_loop (suc fuel) (h ∷ []) mutated = some (h, mutated)
  merkle_loop (suc fuel) (h ∷ g ∷ rest) mutated =
      merkle_loop fuel (merkle_level (h ∷ g ∷ rest)) (mutated || duplicate_pair (h ∷ g ∷ rest))

  -- The number of hashes is fuel enough.
  unfoldable pub merkle_root : List ℕ → Option (ℕ × Bool)
  unfolding merkle_loop
  merkle_root ids = merkle_loop (length ids) ids false
