-- ===== src/Merkle/Laws.antt =====
-- The proofs that a tree generates lead to its root, and which indices a proof is accepted for.
use mathlib.Core.Option.{some_inj}
use mathlib.Core.Path.{fun_ext}
use go_plgchain.Base.{
  ℕ, zero, suc, ◌+◌, ◌-◌, ◌/◌, ◌%◌, ◌^◌, ◌≤◌, ◌<◌, ◌≡◌, inl, inr, refl, sym, ap, ◌∙◌, subst, List,
  [], ◌∷◌, ◌++◌, some, length, get_or, map, arith, Bool-cases, Option-cases,
}
use native.Mathlib.Omega.{pow_step}
use go_plgchain.Base.Bytes.{zeros, drop, Bytes, bytes_equal, bytes_equal_sound}
use go_plgchain.Merkle.{
  MerkleTree, find_leaf, leaf_index, generate_proof, to_int, power_of_two, valid, build, top,
  new_merkle_tree_with_hashing, new_merkle_node, bytes_to_hash, hash_from, get_proof_hash,
  verify_proof_using,
}
use go_plgchain.Merkle.Climb.{climb}

find_leaf-inside :
    (blocks : List Bytes) (leaf : Bytes) (i : ℕ)
    → find_leaf blocks leaf ≡ some i
    → (i < length blocks) × (get_or blocks i [] ≡ leaf)
unfolding find_leaf
find_leaf-inside [] leaf i h = absurd (cc)
find_leaf-inside (d ∷ more) leaf i h = elim (Bool-cases (bytes_equal d leaf)) [
  | inl e ↦
      let first : i ≡ 0 = ground (arith, h, e) in
      (omega arith, ap (λ n. get_or (d ∷ more) n []) first ∙ bytes_equal_sound d leaf e)
  | inr e ↦ elim (Option-cases (find_leaf more leaf)) [
    | inl n ↦ absurd (ground (arith, h, e, n))
    | inr (j, q) ↦
        let later : i ≡ suc j = ground (arith, h, e, q) in
        let (inside, same) = find_leaf-inside more leaf j q in
        (omega arith, ap (λ n. get_or (d ∷ more) n []) later ∙ same)
  ]
]

get_or-map :
    (f : Bytes → Bytes) (blocks : List Bytes) (i : ℕ)
    → i < length blocks
    → get_or (map f blocks) i [] ≡ f (get_or blocks i [])
get_or-map f [] i h = absurd (omega arith)
get_or-map f (d ∷ more) zero h = refl
get_or-map f (d ∷ more) (suc i) h = get_or-map f more i (omega arith)

length-map : (f : Bytes → Bytes) (blocks : List Bytes) → length (map f blocks) ≡ length blocks
length-map f [] = refl
length-map f (d ∷ more) = ap suc (length-map f more)

-- The statement for a tree whose proofs are asked for.
abbrev ProofLeads : (Bytes → Bytes) → Bytes → ℕ → MerkleTree → Type 0
ProofLeads digest leaf i t =
    leaf_index t leaf ≡ some i
    → (proof : List Bytes) × (generate_proof t leaf ≡ some (some proof))
      × (get_proof_hash digest [] i leaf proof ≡ t.root)

built-ProofLeads :
    (digest : Bytes → Bytes) (blocks : List Bytes) (leaf : Bytes) (i : ℕ)
    → (let levels = build digest (length blocks) (map digest blocks) in
        ProofLeads digest leaf i
          (record { levels = levels; root = top digest levels; leaf_data = blocks }))
unfolding generate_proof
built-ProofLeads digest blocks leaf i found =
    let (inside, same) = find_leaf-inside blocks leaf i found in
    let (proof, made, leads) =
      climb digest (length blocks) (map digest blocks) i (omega (arith, length-map digest blocks))
        (omega (arith, length-map digest blocks)) in
    let start : get_or (map digest blocks) i [] ≡ digest leaf =
      get_or-map digest blocks i inside ∙ ap digest same in
    (proof, ground (arith, found, made), ap (λ x. hash_from digest i x proof) (sym start) ∙ leads)

-- BytesToHash leaves 32 bytes as they are.
bytes_to_hash-whole : (b : Bytes) → length b ≡ 32 → bytes_to_hash b ≡ b
unfolding bytes_to_hash
bytes_to_hash-whole b h =
    let none_left : 32 - length b ≡ 0 = omega (arith, h) in
    let none_cut : length b - 32 ≡ 0 = omega (arith, h) in
    ap (λ n. zeros n ++ drop (length b - 32) b) none_left ∙ ap (λ n. drop n b) none_cut

new_merkle_node-whole :
    (digest : Bytes → Bytes)
    → ((b : Bytes) → length (digest b) ≡ 32)
    → new_merkle_node digest ≡ digest
unfolding new_merkle_node
new_merkle_node-whole digest whole = fun_ext (λ b. bytes_to_hash-whole (digest b) (whole b))

-- The tree of a hash function whose digests are hashes already.
abbrev tree_of : (Bytes → Bytes) → List Bytes → MerkleTree
tree_of digest blocks =
    let levels = build digest (length blocks) (map digest blocks) in
    record { levels = levels; root = top digest levels; leaf_data = blocks }

-- For a hash function whose digests have 32 bytes and a tree built of blocks: GenerateProof does not
-- fault on the data of a leaf, and the proof it gives, with the index that LeafIndex gives, hashes to
-- the root in getProofHash.
pub proof_leads_to_root :
    (digest : Bytes → Bytes)
    → ((b : Bytes) → length (digest b) ≡ 32)
    → (blocks : List Bytes) (t : MerkleTree) (leaf : Bytes) (i : ℕ)
    → new_merkle_tree_with_hashing digest blocks ≡ some t
    → leaf_index t leaf ≡ some i
    → (proof : List Bytes) × (generate_proof t leaf ≡ some (some proof))
      × (get_proof_hash digest [] i leaf proof ≡ t.root)
unfolding generate_proof new_merkle_tree_with_hashing
proof_leads_to_root digest whole blocks t leaf i made found =
    let it : tree_of (new_merkle_node digest) blocks ≡ t = some_inj.0 (ground (arith, made)) in
    subst (ProofLeads digest leaf i)
      (ap (λ h. tree_of h blocks) (sym (new_merkle_node-whole digest whole)) ∙ it)
      (built-ProofLeads digest blocks leaf i) found

shift : (i m : ℕ) → (i + 2 ^ suc m) / 2 ≡ i / 2 + 2 ^ m
shift i m = omega (arith, pow_step 2 m)

shift_parity : (i m : ℕ) → (i + 2 ^ suc m) % 2 ≡ i % 2
shift_parity i m = omega (arith, pow_step 2 m)

module _ (digest : Bytes → Bytes) where
  far-hash_from :
      (m i : ℕ) (computed : Bytes) (proof : List Bytes)
      → length proof ≤ m
      → hash_from digest (i + 2 ^ m) computed proof ≡ hash_from digest i computed proof
  unfolding hash_from
  far-hash_from m i computed [] h = refl
  far-hash_from zero i computed (p ∷ proof) h = absurd (omega arith)
  far-hash_from (suc m) i computed (p ∷ proof) h =
      rw (shift i m, shift_parity i m) (far-hash_from m (i / 2) _ proof (omega arith))

-- For a proof of fewer than 63 hashes and an index below 2 ^ 63: an index that is 2 ^ 63 more is as
-- good, since as an int it is negative and the test of its size does not refuse it.
pub far_index_accepted :
    (digest : Bytes → Bytes) (written leaf : Bytes) (proof : List Bytes) (root : Bytes) (i : ℕ)
    → length proof < 63
    → i < 2 ^ 63
    → verify_proof_using digest written i leaf proof root ≡ valid
    → verify_proof_using digest written (i + 2 ^ 63) leaf proof root ≡ valid
unfolding verify_proof_using to_int power_of_two
far_index_accepted digest written leaf proof root i short small h =
    ground (arith, h, far-hash_from digest 63 i (digest (written ++ leaf)) proof (omega arith))
