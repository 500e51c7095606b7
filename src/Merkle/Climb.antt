-- ===== src/Merkle/Climb.antt =====
-- Climbing the levels of a tree from a node, as GenerateProof does: the proof leads to the top.
use go_plgchain.Base.{
  ℕ, zero, suc, ◌+◌, ◌/◌, ◌%◌, ◌≤◌, ◌<◌, ◌≡◌, inl, inr, refl, sym, ap, ◌∙◌, List, [], ◌∷◌, ◌++◌,
  Bool, true, false, some, length, get_or, leb, ◌==◌, if◌then◌else◌, arith, Bool-cases, if_elim,
  leb→le,
}
use go_plgchain.Base.Bytes.{Bytes, bytes_equal, bytes_equal_sound, bytes_equal_refl}
use go_plgchain.Merkle.{children, proof_from, new_level, build, top, hash_from}

half_step : (i : ℕ) → suc (suc i) / 2 ≡ suc (i / 2)
half_step i = omega arith

parity_step : (i : ℕ) → suc (suc i) % 2 ≡ i % 2
parity_step i = omega arith

-- A node is the left or the right child of its parent.
child :
    (nodes : List Bytes) (i : ℕ)
    → i < length nodes
    → get_or nodes i []
      ≡ (if i % 2 == 0 then (children nodes (i / 2)).0 else (children nodes (i / 2)).1)
unfolding children
child [] i h = absurd (omega arith)
child (x ∷ []) zero h = refl
child (x ∷ []) (suc i) h = absurd (omega arith)
child (x ∷ y ∷ nodes) zero h = refl
child (x ∷ y ∷ nodes) (suc zero) h = refl
child (x ∷ y ∷ nodes) (suc (suc i)) h =
    rw (half_step i, parity_step i) (child nodes i (omega arith))

module _ (digest : Bytes → Bytes) where
  parent :
      (nodes : List Bytes) (k : ℕ)
      → k + k < length nodes
      → get_or (new_level digest nodes) k [] ≡ digest ((children nodes k).0 ++ (children nodes k).1)
  unfolding children new_level
  parent [] k h = absurd (omega arith)
  parent (x ∷ []) zero h = refl
  parent (x ∷ []) (suc k) h = absurd (omega arith)
  parent (x ∷ y ∷ nodes) zero h = refl
  parent (x ∷ y ∷ nodes) (suc k) h = parent nodes k (omega arith)

  length-new_level : (nodes : List Bytes) → length (new_level digest nodes) ≡ (length nodes + 1) / 2
  unfolding new_level
  length-new_level [] = refl
  length-new_level (x ∷ []) = refl
  length-new_level (x ∷ y ∷ nodes) = omega (arith, length-new_level nodes)

  top-cons :
      (fuel : ℕ) (nodes more : List Bytes)
      → top digest (nodes ∷ build digest fuel more) ≡ top digest (build digest fuel more)
  unfolding build top
  top-cons zero nodes more = refl
  top-cons (suc fuel) nodes more =
      if_elim (λ b. top digest (nodes ∷ b) ≡ top digest b) (leb (length more) 1) (λ _. refl)
        (λ _. refl)

  -- The sibling that GenerateProof picks by hash gives the hash of the parent.
  siblings :
      (even : Bool) (left right node : Bytes)
      → node ≡ (if even then left else right)
      → (let sibling = if bytes_equal left node then right else left in
          if even then digest (node ++ sibling) else digest (sibling ++ node))
        ≡ digest (left ++ right)
  siblings true left right node h =
      let same : bytes_equal left node ≡ true = ap (bytes_equal left) h ∙ bytes_equal_refl left in
      rw same (ap (λ x. digest (x ++ right)) h)
  siblings false left right node h = elim (Bool-cases (bytes_equal left node)) [
    | inl e ↦
        let twin : left ≡ node = bytes_equal_sound left node e in
        rw e (ap (λ x. digest (right ++ x)) h ∙ ap (λ x. digest (x ++ right)) (sym (twin ∙ h)))
    | inr e ↦ rw e (ap (λ x. digest (left ++ x)) h)
  ]

  -- What climbing from a node to the top of the levels finds: a proof that leads there.
  abbrev Climbs : List (List Bytes) → List Bytes → ℕ → Type 0
  Climbs levels nodes i =
      (proof : List Bytes) × (proof_from levels i (top digest levels) ≡ some proof)
      × (hash_from digest i (get_or nodes i []) proof ≡ top digest levels)

  climb_alone :
      (nodes : List Bytes) (i : ℕ)
      → i < length nodes
      → length nodes ≤ 1
      → Climbs (nodes ∷ []) nodes i
  unfolding proof_from top hash_from
  climb_alone nodes i h f =
      let first : i ≡ 0 = omega arith in
      let node : get_or nodes i [] ≡ get_or nodes 0 [] = ap (λ n. get_or nodes n []) first in
      let same : bytes_equal (get_or nodes i []) (get_or nodes 0 []) ≡ true =
        ap (λ x. bytes_equal x (get_or nodes 0 [])) node ∙ bytes_equal_refl (get_or nodes 0 []) in
      ([], ground (arith, same), node)

  climb_up :
      (nodes : List Bytes) (above : List (List Bytes)) (i : ℕ)
      → i < length nodes
      → top digest (nodes ∷ above) ≡ top digest above
      → Climbs above (new_level digest nodes) (i / 2)
      → Climbs (nodes ∷ above) nodes i
  unfolding proof_from hash_from
  climb_up nodes above i h t (proof, found, leads) =
      let node = get_or nodes i [] in
      let (left, right) = children nodes (i / 2) in
      let sibling = if bytes_equal left node then right else left in
      let made : get_or (new_level digest nodes) (i / 2) [] ≡ digest (left ++ right) =
        parent nodes (i / 2) (omega arith) in
      let round = siblings (i % 2 == 0) left right node (child nodes i h) in
      elim (Bool-cases (bytes_equal node (top digest above))) [
        | inl e ↦ ([], rw (t, e) refl, bytes_equal_sound node (top digest above) e ∙ sym t)
        | inr e ↦ (
          sibling ∷ proof,
          rw (t, e, found) refl,
          ap (λ x. hash_from digest (i / 2) x proof) (round ∙ sym made) ∙ leads ∙ sym t,
        )
      ]

  pub climb :
      (fuel : ℕ) (nodes : List Bytes) (i : ℕ)
      → i < length nodes
      → length nodes ≤ suc fuel
      → Climbs (build digest fuel nodes) nodes i
  unfolding build
  climb zero nodes i h f = climb_alone nodes i h f
  climb (suc fuel) nodes i h f =
      let up = new_level digest nodes in
      if_elim (λ levels. Climbs levels nodes i) (leb (length nodes) 1)
        (λ e. climb_alone nodes i h (leb→le _ _ e))
        (λ e. climb_up nodes (build digest fuel up) i h (top-cons fuel nodes up) (
          climb fuel up (i / 2) (omega (arith, length-new_level nodes))
            (ground (arith, e, length-new_level nodes))))
