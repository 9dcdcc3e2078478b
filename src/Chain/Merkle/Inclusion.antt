-- ===== src/Chain/Merkle/Inclusion.antt =====
-- Every leaf of a tree has a proof that the root verifies.
use you_fen.Base.{
  ℕ, zero, suc, ◌+◌, ◌/◌, ◌≤◌, ◌≡◌, refl, ap, ◌∙◌, true, Option, none, some, List, [], ◌∷◌, length,
  get_elem?, ltb, arith, ==_refl,
}
use mathlib.Core.Option.{some-injective}
use you_fen.Chain.Merkle.{
  sibling, hash_pair, next_level, root_from, build_merkle_root, add_sibling, proof_from,
  build_merkle_proof, fold_proof, verify_merkle_proof,
}

-- The number of a level's parents.
next_level-length :
    (hash : ℕ → ℕ → ℕ) (xs : List ℕ)
    → length (next_level hash xs) + length (next_level hash xs) ≤ length xs + 1
next_level-length hash [] = omega arith
next_level-length hash (a ∷ []) = omega arith
next_level-length hash (a ∷ (b ∷ xs)) = omega (arith, next_level-length hash xs)

half_step : (i : ℕ) → suc (suc i) / 2 ≡ suc (i / 2)
half_step i = omega arith

sibling_step : (i : ℕ) → sibling (suc (suc i)) ≡ suc (suc (sibling i))
sibling_step i = ground arith

within : (xs : List ℕ) (i a : ℕ) → get_elem? xs i ≡ some a → ltb i (length xs) ≡ true
within [] i a h = cc
within (x ∷ xs) zero a h = ground arith
within (x ∷ xs) (suc i) a h = ground (arith, within xs i a h)

module _ (hash : ℕ → ℕ → ℕ) where
  hash_pair_comm : (a b : ℕ) → hash_pair hash a b ≡ hash_pair hash b a
  hash_pair_comm a b = grind arith

  -- The parent of a node with the sibling that it has.
  abbrev parent : ℕ → Option ℕ → ℕ
  parent a none = a
  parent a (some b) = hash_pair hash a b

  parent-next_level :
      (xs : List ℕ) (i a : ℕ)
      → get_elem? xs i ≡ some a
      → get_elem? (next_level hash xs) (i / 2) ≡ some (parent a (get_elem? xs (sibling i)))
  parent-next_level [] i a h = cc
  parent-next_level (x ∷ []) zero a h = h
  parent-next_level (x ∷ []) (suc i) a h = cc
  parent-next_level (x ∷ (y ∷ xs)) zero a h =
      ap (λ k. some (hash_pair hash k y)) (some-injective x a h)
  parent-next_level (x ∷ (y ∷ xs)) (suc zero) a h =
      ap (λ k. some (hash_pair hash x k)) (some-injective y a h) ∙ ap some (hash_pair_comm x a)
  parent-next_level (x ∷ (y ∷ xs)) (suc (suc i)) a h =
      rw (half_step i) (rw (sibling_step i) (parent-next_level xs i a h))

  fold-add_sibling :
      (a : ℕ) (s : Option ℕ) (proof : List ℕ) (rest : Option (List ℕ)) (root : ℕ)
      → rest ≡ some proof
      → fold_proof hash (parent a s) proof ≡ root
      → (proof' : List ℕ) × (add_sibling hash s rest ≡ some proof')
        × (fold_proof hash a proof' ≡ root)
  fold-add_sibling a none proof rest root e f = (proof, rw e refl, f)
  fold-add_sibling a (some b) proof rest root e f = (b ∷ proof, rw e refl, f)

  -- The loops agree, with fuel for each round.
  proof_from-fold :
      (fuel : ℕ) (xs : List ℕ) (i a : ℕ)
      → length xs ≤ suc fuel
      → get_elem? xs i ≡ some a
      → (root : ℕ) × (proof : List ℕ) × (root_from hash fuel xs ≡ some root)
        × (proof_from hash fuel xs i ≡ some proof)
        × (fold_proof hash a proof ≡ root)
  unfolding root_from proof_from
  proof_from-fold fuel [] i a le h = cc
  proof_from-fold fuel (x ∷ []) zero a le h = (a, [], h, refl, refl)
  proof_from-fold fuel (x ∷ []) (suc i) a le h = cc
  proof_from-fold zero (x ∷ (y ∷ xs)) i a le h = absurd (omega (arith, le))
  proof_from-fold (suc fuel) (x ∷ (y ∷ xs)) i a le h =
      let up = next_level hash (x ∷ (y ∷ xs)) in
      let s = get_elem? (x ∷ (y ∷ xs)) (sibling i) in
      let (root, proof, er, ep, ef) =
        proof_from-fold fuel up (i / 2) (parent a s) (omega (arith, le, next_level-length hash xs))
          (parent-next_level (x ∷ (y ∷ xs)) i a h) in
      let (proof', es, es') = fold-add_sibling a s proof _ root ep ef in (root, proof', er, es, es')

-- For every index within the leaves, the root and the proof exist, and the proof verifies the leaf
-- against the root, whatever the hash of two nodes is.
pub merkle_inclusion :
    (hash : ℕ → ℕ → ℕ) (leaves : List ℕ) (index leaf : ℕ)
    → get_elem? leaves index ≡ some leaf
    → (root : ℕ) × (proof : List ℕ) × (build_merkle_root hash leaves ≡ some root)
      × (build_merkle_proof hash leaves index ≡ some proof)
      × (verify_merkle_proof hash leaf proof root ≡ true)
unfolding build_merkle_root build_merkle_proof verify_merkle_proof
merkle_inclusion hash leaves index leaf h =
    let (root, proof, er, ep, ef) =
      proof_from-fold hash (length leaves) leaves index leaf (omega arith) h in
    (root, proof, er, rw (within leaves index leaf h) ep, rw ef (==_refl root))
