-- ===== src/Merkle/Tests.antt =====
-- Proofs of small trees of merkle-tree/, with a hash function that is easy to follow.
use go_plgchain.Base.{
  ℕ, ◌+◌, ◌*◌, ◌^◌, ◌%◌, ◌≡◌, refl, List, [], ◌∷◌, ◌++◌, some, length, map, arith,
}
use go_plgchain.Base.Bytes.{zeros, Bytes, bytes_equal}
use go_plgchain.Merkle.{
  MerkleTree, find_leaf, leaf_index, generate_proof, to_int, power_of_two, valid, build, top,
  new_merkle_tree_with_hashing, new_merkle_node, hash_from, get_proof_hash, verify_proof_using,
}
use go_plgchain.Merkle.Laws.{proof_leads_to_root, far_index_accepted}

-- The digest is a byte for a polynomial of the bytes, and zeros.
unfoldable polynomial : ℕ → Bytes → ℕ
polynomial acc [] = acc
polynomial acc (b ∷ bytes) = polynomial ((acc * 31 + b + 7) % 256) bytes

unfoldable digest : Bytes → Bytes
digest bytes = polynomial 1 bytes ∷ zeros 31

digest-whole : (b : Bytes) → length (digest b) ≡ 32
unfolding digest
digest-whole b = refl

abbrev blocks : List Bytes
blocks = (1 ∷ []) ∷ (2 ∷ []) ∷ (3 ∷ []) ∷ []

abbrev tree : MerkleTree
tree =
    let levels = build (new_merkle_node digest) 3 (map (new_merkle_node digest) blocks) in
    record { levels = levels; root = top (new_merkle_node digest) levels; leaf_data = blocks }

grows : new_merkle_tree_with_hashing digest blocks ≡ some tree
unfolding new_merkle_tree_with_hashing
grows = refl

third : leaf_index tree (3 ∷ []) ≡ some 2
unfolding find_leaf bytes_equal
third = refl

proof_leads_to_root_example :
    (proof : List Bytes) × (generate_proof tree (3 ∷ []) ≡ some (some proof))
    × (get_proof_hash digest [] 2 (3 ∷ []) proof ≡ tree.root)
proof_leads_to_root_example =
    proof_leads_to_root digest digest-whole blocks tree (3 ∷ []) 2 grows third

-- The first of two leaves, under the hash of the second.
abbrev pair_root : Bytes
pair_root = digest (digest (1 ∷ []) ++ digest (2 ∷ []))

verifies : verify_proof_using digest [] 0 (1 ∷ []) (digest (2 ∷ []) ∷ []) pair_root ≡ valid
unfolding verify_proof_using to_int power_of_two hash_from bytes_equal digest polynomial
verifies = refl

far_index_accepted_example :
    verify_proof_using digest [] (0 + 2 ^ 63) (1 ∷ []) (digest (2 ∷ []) ∷ []) pair_root ≡ valid
far_index_accepted_example =
    far_index_accepted digest [] (1 ∷ []) (digest (2 ∷ []) ∷ []) pair_root 0 (omega arith)
      (omega arith) verifies
