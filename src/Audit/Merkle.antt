-- ===== src/Audit/Merkle.antt =====
-- The loop that builds the Merkle root ends, and its groups are the nodes.
use secure_orchestration_mes.Prelude.{
  ℕ, zero, suc, ◌+◌, ◌*◌, ◌≤◌, ◌≡◌, refl, ap, ◌∙◌, List, [], ◌∷◌, ◌++◌, map, arith, length, take,
  drop, length-drop,
}
use secure_orchestration_mes.Messages.{Bytes}
use secure_orchestration_mes.Audit.{
  Hashes, MerkleNode, missing, node, groups, next_level, reduce, build_merkle_root, root, node_hash,
  combined,
}

take-drop {ℓ} : {A : Type ℓ} (n : ℕ) (xs : List A) → take n xs ++ drop n xs ≡ xs
take-drop zero xs = refl
take-drop (suc n) [] = refl
take-drop (suc n) (x ∷ xs) = ap (◌∷◌ x) (take-drop n xs)

length-map {ℓ κ} :
    {A : Type ℓ} {B : Type κ} (f : A → B) (xs : List A) → length (map f xs) ≡ length xs
length-map f [] = refl
length-map f (x ∷ xs) = ap suc (length-map f xs)

abbrev pub flatten : List (List MerkleNode) → List MerkleNode
flatten [] = []
flatten (g ∷ gs) = g ++ flatten gs

module _ (h : Hashes) where
  -- The groups of a level are its nodes, in their order, none left out and none twice, for every
  -- branching but 0, where the fuel is the number of nodes.
  pub flatten-groups :
      (fuel branching : ℕ) (nodes : List MerkleNode)
      → 1 ≤ branching
      → length nodes ≤ fuel
      → flatten (groups h fuel branching nodes) ≡ nodes
  unfolding groups
  flatten-groups fuel branching [] pos enough = refl
  flatten-groups zero branching (x ∷ nodes) pos enough = absurd (omega arith)
  flatten-groups (suc fuel) (suc n) (x ∷ nodes) pos enough =
      ap (λ rest. take (suc n) (x ∷ nodes) ++ rest)
        (flatten-groups fuel (suc n) (drop n nodes) pos (omega (arith, length-drop n nodes)))
      ∙ take-drop (suc n) (x ∷ nodes)
  flatten-groups (suc fuel) zero (x ∷ nodes) pos enough = absurd (omega arith)

  length-groups :
      (fuel n : ℕ) (nodes : List MerkleNode)
      → length (groups h fuel (suc (suc n)) nodes) * 2 ≤ length nodes + 1
  unfolding groups
  length-groups fuel n [] = omega arith
  length-groups zero n (x ∷ nodes) = omega arith
  length-groups (suc fuel) n (x ∷ []) = omega arith
  length-groups (suc fuel) n (x ∷ y ∷ nodes) =
      omega (arith, length-groups fuel n (drop n nodes), length-drop n nodes)

  -- A level of two nodes or more is followed by one that is not empty and is shorter.
  next_level-shorter :
      (n : ℕ) (x y : MerkleNode) (nodes : List MerkleNode)
      → (1 ≤ length (next_level h (suc (suc n)) (x ∷ y ∷ nodes)))
        × (length (next_level h (suc (suc n)) (x ∷ y ∷ nodes)) ≤ suc (length nodes))
  unfolding next_level groups
  next_level-shorter n x y nodes =
      let gs = groups h (suc (length nodes)) (suc (suc n)) (drop n nodes) in
      let measured = length-map (λ group. node missing missing (h.sha256 (combined h group))) gs in
      let few = length-groups (suc (length nodes)) n (drop n nodes) in
      (omega (arith, measured), omega (arith, measured, few, length-drop n nodes))

  reduce-ends :
      (fuel n : ℕ) (nodes : List MerkleNode)
      → 1 ≤ length nodes
      → length nodes ≤ fuel + 1
      → (hash : Bytes) × (reduce h fuel (suc (suc n)) nodes ≡ root hash)
  unfolding reduce
  reduce-ends fuel n [] pos enough = absurd (omega arith)
  reduce-ends fuel n (x ∷ []) pos enough = (node_hash h x, refl)
  reduce-ends zero n (x ∷ y ∷ nodes) pos enough = absurd (omega arith)
  reduce-ends (suc fuel) n (x ∷ y ∷ nodes) pos enough =
      reduce-ends fuel n (next_level h (suc (suc n)) (x ∷ y ∷ nodes))
        (omega (arith, (next_level-shorter n x y nodes).0))
        (omega (arith, (next_level-shorter n x y nodes).1))

  -- With a branching of 2 or more the loop ends, and there is a root, whatever the leaves are: the
  -- number of the leaves is fuel enough.
  pub build_merkle_root-total :
      (branching : ℕ) (leaves : List Bytes)
      → 2 ≤ branching
      → (hash : Bytes) × (build_merkle_root h branching leaves ≡ root hash)
  unfolding build_merkle_root
  build_merkle_root-total zero leaves two = absurd (omega arith)
  build_merkle_root-total (suc zero) leaves two = absurd (omega arith)
  build_merkle_root-total (suc (suc n)) [] two = (_, refl)
  build_merkle_root-total (suc (suc n)) (leaf ∷ []) two = (_, refl)
  build_merkle_root-total (suc (suc n)) (leaf ∷ leaf' ∷ leaves) two =
      let measured = length-map (node missing missing) leaves in
      reduce-ends (length (leaf ∷ leaf' ∷ leaves)) n
        (map (node missing missing) (leaf ∷ leaf' ∷ leaves)) (omega arith) (omega (arith, measured))
