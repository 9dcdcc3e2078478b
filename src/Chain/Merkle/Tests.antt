-- ===== src/Chain/Merkle/Tests.antt =====
-- A tree of three leaves.
use you_fen.Base.{ℕ, ◌+◌, ◌*◌, ◌≡◌, refl, true, some, List, [], ◌∷◌}
use you_fen.Chain.Merkle.{build_merkle_root, build_merkle_proof, verify_merkle_proof}
use you_fen.Chain.Merkle.Inclusion.{merkle_inclusion}

abbrev mix : ℕ → ℕ → ℕ
mix a b = 1000 * a + b

abbrev leaves : List ℕ
leaves = 5 ∷ (3 ∷ (8 ∷ []))

abbrev leaf : ℕ
leaf = 3

merkle_inclusion_example :
    (root : ℕ) × (proof : List ℕ) × (build_merkle_root mix leaves ≡ some root)
    × (build_merkle_proof mix leaves 1 ≡ some proof)
    × (verify_merkle_proof mix leaf proof root ≡ true)
merkle_inclusion_example = merkle_inclusion mix leaves 1 leaf refl
