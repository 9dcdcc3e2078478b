-- ===== src/Chain/Merkle.antt =====
-- lib/blockchain/hashing/merkle.ts: sorted-pair Merkle trees. A node is the number that a checked
-- 32-byte hex string denotes, so that the comparison of strings is that of numbers; the check of
-- the strings and the encoding of the leaves are not modelled. The hash of two nodes is a parameter.
pub mod Inclusion
mod Tests
use you_fen.Base.{
  ℕ, zero, suc, ◌+◌, ◌-◌, ◌/◌, ◌%◌, Bool, Option, none, some, List, [], ◌∷◌, length, get_elem?, leb,
  ltb, ◌==◌, if◌then◌else◌,
}

-- `ZERO_ROOT`
abbrev pub zero_root : ℕ
zero_root = 0

-- The index of the sibling: `idx ^ 1`.
abbrev pub sibling : ℕ → ℕ
sibling idx = if idx % 2 == 0 then idx + 1 else idx - 1

module _ (hash : ℕ → ℕ → ℕ) where
  -- `hashPair`
  abbrev pub hash_pair : ℕ → ℕ → ℕ
  hash_pair a b = if leb a b then hash a b else hash b a

  -- `nextLevel`: the odd tail node is promoted.
  abbrev pub next_level : List ℕ → List ℕ
  next_level [] = []
  next_level (a ∷ []) = a ∷ []
  next_level (a ∷ (b ∷ level)) = hash_pair a b ∷ next_level level

  -- The loop of `buildMerkleRoot`, on fuel: `none` when it runs out.
  unfoldable pub root_from : ℕ → List ℕ → Option ℕ
  root_from fuel [] = some zero_root
  root_from fuel (a ∷ []) = some a
  root_from zero (a ∷ (b ∷ level)) = none
  root_from (suc fuel) (a ∷ (b ∷ level)) = root_from fuel (next_level (a ∷ (b ∷ level)))

  -- Every round shortens the level, so that the number of leaves is enough.
  unfoldable pub build_merkle_root : List ℕ → Option ℕ
  build_merkle_root leaves = root_from (length leaves) leaves

  -- A node without a sibling contributes nothing to the proof.
  abbrev pub add_sibling : Option ℕ → Option (List ℕ) → Option (List ℕ)
  add_sibling s none = none
  add_sibling none (some proof) = some proof
  add_sibling (some s) (some proof) = some (s ∷ proof)

  -- The loop of `buildMerkleProof`, on fuel.
  unfoldable pub proof_from : ℕ → List ℕ → ℕ → Option (List ℕ)
  proof_from fuel [] idx = some []
  proof_from fuel (a ∷ []) idx = some []
  proof_from zero (a ∷ (b ∷ level)) idx = none
  proof_from (suc fuel) (a ∷ (b ∷ level)) idx =
      add_sibling (get_elem? (a ∷ (b ∷ level)) (sibling idx))
        (proof_from fuel (next_level (a ∷ (b ∷ level))) (idx / 2))

  -- `none` stands for the error of an index that is out of range.
  unfoldable pub build_merkle_proof : List ℕ → ℕ → Option (List ℕ)
  build_merkle_proof leaves index =
      if ltb index (length leaves) then proof_from (length leaves) leaves index else none

  -- The loop of `verifyMerkleProof`.
  abbrev pub fold_proof : ℕ → List ℕ → ℕ
  fold_proof computed [] = computed
  fold_proof computed (p ∷ proof) = fold_proof (hash_pair computed p) proof

  unfoldable pub verify_merkle_proof : ℕ → List ℕ → ℕ → Bool
  verify_merkle_proof leaf proof root = fold_proof leaf proof == root
