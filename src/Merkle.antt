-- ===== src/Merkle.antt =====
-- merkle-tree/merkle_tree.go. The tree's nodes are its levels, from the leaves up: node i of a level
-- has the parent i / 2 of the next one, and a node that is alone at the end of a level is both
-- children of its parent. The hash function, of other libraries, is the parameter digest; a hasher
-- is what was written to it since its last reset. int is an int64, and int(float64) of a number that
-- does not fit in it is its least value, as on amd64.
pub mod Climb
pub mod Laws
mod Tests
use go_plgchain.Base.{
  ℕ, zero, suc, ◌+◌, ◌-◌, ◌/◌, ◌%◌, ◌^◌, List, [], ◌∷◌, ◌++◌, Bool, true, false, ◌&&◌, not, Option,
  none, some, length, get_or, map, ltb, leb, ◌==◌, if◌then◌else◌,
}
use go_plgchain.Base.Bytes.{zeros, drop, Bytes, bytes_equal}
use go_plgchain.Base.Int.{ℤ, pos, negsuc, ltb_ℤ}

pub record MerkleTree : Type 0 where
  pub levels : List (List Bytes)
  pub root : Bytes
  pub leaf_data : List Bytes

-- The children of node k of the next level, at the end of an odd level the last node twice.
unfoldable pub children : List Bytes → ℕ → Bytes × Bytes
children [] k = ([], [])
children (x ∷ []) k = (x, x)
children (x ∷ y ∷ rest) zero = (x, y)
children (x ∷ y ∷ rest) (suc k) = children rest k

-- The index of the first leaf with the data; an error is `none`.
unfoldable pub find_leaf : List Bytes → Bytes → Option ℕ
find_leaf [] leaf = none
find_leaf (d ∷ more) leaf =
    if bytes_equal d leaf
    then some 0
    else elim (find_leaf more leaf) [ none ↦ none | some i ↦ some (suc i) ]

abbrev pub leaf_index : MerkleTree → Bytes → Option ℕ
leaf_index t leaf = find_leaf t.leaf_data leaf

-- The loop of GenerateProof, at node i of the first of the levels. No level means a nil parent,
-- whose dereference is `none`.
unfoldable pub proof_from : List (List Bytes) → ℕ → Bytes → Option (List Bytes)
proof_from [] i root = none
proof_from (nodes ∷ above) i root =
    let node = get_or nodes i [] in
    let (left, right) = children nodes (i / 2) in
    let sibling = if bytes_equal left node then right else left in
    let rest = proof_from above (i / 2) root in
    if bytes_equal node root
    then some []
    else elim rest [ none ↦ none | some proof ↦ some (sibling ∷ proof) ]

-- The inner `none` is the error of a leaf that is not in the tree, the outer one a fault.
unfoldable pub generate_proof : MerkleTree → Bytes → Option (Option (List Bytes))
generate_proof t leaf = elim (find_leaf t.leaf_data leaf) [
  | none ↦ some none
  | some i ↦ elim (proof_from t.levels i t.root) [ none ↦ none | some proof ↦ some (some proof) ]
]

-- int(index).
unfoldable pub to_int : ℕ → ℤ
to_int n = if ltb n (2 ^ 63) then pos n else negsuc (2 ^ 64 - n - 1)

-- int(math.Pow(2, float64(n))).
unfoldable pub power_of_two : ℕ → ℤ
power_of_two n = if ltb n 63 then pos (2 ^ n) else negsuc (2 ^ 63 - 1)

pub data Verdict : Type 0 where
  valid : Verdict
  empty_leaf : Verdict
  invalid_index : Verdict
  not_a_member : Verdict

-- types.BytesToHash: the last 32 bytes, with zeros before fewer.
unfoldable pub bytes_to_hash : Bytes → Bytes
bytes_to_hash b = zeros (32 - length b) ++ drop (length b - 32) b

-- The levels, by the hash that a node has for what is hashed.
module _ (node_hash : Bytes → Bytes) where
  -- One round of the loop over the levels.
  unfoldable pub new_level : List Bytes → List Bytes
  new_level [] = []
  new_level (x ∷ []) = node_hash (x ++ x) ∷ []
  new_level (x ∷ y ∷ rest) = node_hash (x ++ y) ∷ new_level rest

  -- The loop, whose levels get shorter: as many rounds as there are leaves are enough.
  unfoldable pub build : ℕ → List Bytes → List (List Bytes)
  build zero nodes = nodes ∷ []
  build (suc k) nodes =
      let above = build k (new_level nodes) in
      if leb (length nodes) 1 then nodes ∷ [] else nodes ∷ above

  -- nodes[0] of the last level.
  unfoldable pub top : List (List Bytes) → Bytes
  top [] = []
  top (nodes ∷ []) = get_or nodes 0 []
  top (nodes ∷ more ∷ above) = top (more ∷ above)

module _ (digest : Bytes → Bytes) where
  -- The hash of newMerkleNode, of the data of a leaf or of the hashes of its children.
  unfoldable pub new_merkle_node : Bytes → Bytes
  new_merkle_node data_to_hash = bytes_to_hash (digest data_to_hash)

  -- An error is `none`.
  unfoldable pub new_merkle_tree_with_hashing : List Bytes → Option MerkleTree
  new_merkle_tree_with_hashing blocks =
      let levels = build new_merkle_node (length blocks) (map new_merkle_node blocks) in
      if length blocks == 0
      then none
      else some (record { levels = levels; root = top new_merkle_node levels; leaf_data = blocks })

  -- The loop of getProofHash, which resets the hasher before it writes the children.
  unfoldable pub hash_from : ℕ → Bytes → List Bytes → Bytes
  hash_from index computed [] = computed
  hash_from index computed (p ∷ proof) =
      hash_from (index / 2)
        (if index % 2 == 0 then digest (computed ++ p) else digest (p ++ computed)) proof

  -- `written` is what the hasher that the caller gives has in it already.
  abbrev pub get_proof_hash : Bytes → ℕ → Bytes → List Bytes → Bytes
  get_proof_hash written index leaf proof = hash_from index (digest (written ++ leaf)) proof

  unfoldable pub verify_proof_using : Bytes → ℕ → Bytes → List Bytes → Bytes → Verdict
  verify_proof_using written index leaf proof root =
      if length leaf == 0
      then empty_leaf
      else if not (ltb_ℤ (to_int index) (power_of_two (length proof)))
      then invalid_index
      else if not (bytes_equal root (get_proof_hash written index leaf proof))
      then not_a_member
      else valid

  -- A new hasher has nothing in it.
  abbrev pub verify_proof : ℕ → Bytes → List Bytes → Bytes → Verdict
  verify_proof = verify_proof_using []
