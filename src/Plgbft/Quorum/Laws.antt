-- ===== src/Plgbft/Quorum/Laws.antt =====
-- Two quorums share more than Byzantine validators can have, and all validators are one.
use go_plgchain.Base.{
  ℕ, ◌+◌, ◌*◌, ◌≤◌, ◌≡◌, ◌↔◌, refl, ap, List, [], ◌∷◌, ◌++◌, Bool, true, false, Option, none, some,
  ◌==◌, if◌then◌else◌, if_elim, arith,
}
use go_plgchain.Base.Dict.{lookup, insert, lookup-insert}
use go_plgchain.Plgbft.AccountSet.{
  ValidatorMetadata, AccountSet, is_some, get_total_voting_power, get_addresses,
}
use go_plgchain.Plgbft.AccountSet.Laws.{find, Distinct}
use go_plgchain.Plgbft.Quorum.{
  fill_powers, new_validator_set, get_quorum_size, aggregate_voting_power, has_quorum, or_zero,
}

abbrev pub member : ℕ → List ℕ → Bool
member a [] = false
member a (b ∷ bs) = if b == a then true else member a bs

unfoldable pub IsSigners : List ℕ → Type 0
IsSigners [] = Unit
IsSigners (a ∷ signers) = (member a signers ≡ false) × IsSigners signers

-- The signers of `xs` that are in `ys`, or that are not.
unfoldable pub common : List ℕ → List ℕ → List ℕ
common [] ys = []
common (a ∷ xs) ys = let rest = common xs ys in if member a ys then a ∷ rest else rest

unfoldable only : List ℕ → List ℕ → List ℕ
only [] ys = []
only (a ∷ xs) ys = let rest = only xs ys in if member a ys then rest else a ∷ rest

-- The power that the first validator of an address has.
abbrev power_of : Option ValidatorMetadata → ℕ
power_of none = 0
power_of (some v) = v.voting_power

unfoldable signed : AccountSet → List ℕ → ℕ
signed vs [] = 0
signed vs (a ∷ signers) = power_of (find vs a) + signed vs signers

fill_powers_lem :
    (vs : AccountSet) (m : List (ℕ × ℕ)) (a : ℕ)
    → Distinct vs
    → or_zero (lookup a (fill_powers vs m))
      ≡ (if is_some (find vs a) then power_of (find vs a) else or_zero (lookup a m))
unfolding fill_powers find Distinct
fill_powers_lem [] m a p = ground arith
fill_powers_lem (v ∷ vs) m a p =
    let here : v.address ≡ a → find vs v.address ≡ find vs a = λ q. ap (find vs) q in
    ground (
      arith,
      here,
      p.0,
      fill_powers_lem vs (insert v.address v.voting_power m) a p.1,
      lookup-insert v.address a v.voting_power m,
    )

aggregate_lem :
    (vs : AccountSet) (signers : List ℕ)
    → Distinct vs
    → aggregate_voting_power (fill_powers vs []) signers ≡ signed vs signers
unfolding aggregate_voting_power signed lookup
aggregate_lem vs [] p = refl
aggregate_lem vs (a ∷ signers) p =
    ground (arith, fill_powers_lem vs [] a p, aggregate_lem vs signers p)

-- A signer that is not the first validator does not see it.
signed-skip :
    (v : ValidatorMetadata) (vs : AccountSet) (signers : List ℕ)
    → member v.address signers ≡ false
    → signed (v ∷ vs) signers ≡ signed vs signers
unfolding signed find
signed-skip v vs [] h = refl
signed-skip v vs (a ∷ signers) h = ground (arith, h, signed-skip v vs signers)

signed-cons :
    (v : ValidatorMetadata) (vs : AccountSet) (signers : List ℕ)
    → IsSigners signers
    → signed (v ∷ vs) signers ≤ v.voting_power + signed vs signers
unfolding signed find IsSigners
signed-cons v vs [] p = omega arith
signed-cons v vs (a ∷ signers) p =
    let here : v.address ≡ a → member v.address signers ≡ member a signers =
      λ q. ap (λ x. member x signers) q in
    ground (arith, here, p.0, signed-skip v vs signers, signed-cons v vs signers p.1)

signed_nil : (signers : List ℕ) → signed [] signers ≡ 0
unfolding signed find
signed_nil [] = refl
signed_nil (a ∷ signers) = omega (arith, signed_nil signers)

signed-bound :
    (vs : AccountSet) (signers : List ℕ)
    → IsSigners signers
    → signed vs signers ≤ get_total_voting_power vs
signed-bound [] signers p = omega (arith, signed_nil signers)
signed-bound (v ∷ vs) signers p =
    omega (arith, signed-cons v vs signers p, signed-bound vs signers p)

signed-append :
    (vs : AccountSet) (xs ys : List ℕ) → signed vs (xs ++ ys) ≡ signed vs xs + signed vs ys
unfolding signed
signed-append vs [] ys = omega arith
signed-append vs (a ∷ xs) ys = omega (arith, signed-append vs xs ys)

signed-split :
    (vs : AccountSet) (xs ys : List ℕ)
    → signed vs xs ≡ signed vs (common xs ys) + signed vs (only xs ys)
unfolding signed common only
signed-split vs [] ys = refl
signed-split vs (a ∷ xs) ys = ground (arith, signed-split vs xs ys)

member-union :
    (a : ℕ) (xs ys : List ℕ)
    → member a xs ≡ false
    → member a ys ≡ false
    → member a (only xs ys ++ ys) ≡ false
unfolding only
member-union a [] ys h k = k
member-union a (b ∷ xs) ys h k = ground (arith, h, member-union a xs ys)

union-IsSigners : (xs ys : List ℕ) → IsSigners xs → IsSigners ys → IsSigners (only xs ys ++ ys)
unfolding only IsSigners
union-IsSigners [] ys p q = q
union-IsSigners (a ∷ xs) ys p q =
    if_elim (λ l. IsSigners (l ++ ys)) (member a ys) (λ e. union-IsSigners xs ys p.1 q)
      (λ e. (member-union a xs ys p.0 e, union-IsSigners xs ys p.1 q))

has_quorum_lem :
    (vs : AccountSet) (signers : List ℕ)
    → Distinct vs
    → (has_quorum (new_validator_set vs) signers ≡ true)
      ↔ (2 * get_total_voting_power vs ≤ 3 * signed vs signers)
unfolding has_quorum new_validator_set get_quorum_size
has_quorum_lem vs signers p = ground (arith, aggregate_lem vs signers p)

-- For validators of distinct addresses: when two sets of signers are both a quorum, the validators
-- that signed with both have at least a third of the total voting power.
pub quorums_meet :
    (vs : AccountSet) (xs ys : List ℕ)
    → Distinct vs
    → IsSigners xs
    → IsSigners ys
    → has_quorum (new_validator_set vs) xs ≡ true
    → has_quorum (new_validator_set vs) ys ≡ true
    → get_total_voting_power vs
      ≤ 3 * aggregate_voting_power ((new_validator_set vs).voting_power_map) (common xs ys)
unfolding new_validator_set
quorums_meet vs xs ys p q r h k = omega (
  arith,
  (has_quorum_lem vs xs p).0 h,
  (has_quorum_lem vs ys p).0 k,
  aggregate_lem vs (common xs ys) p,
  signed-split vs xs ys,
  signed-append vs (only xs ys) ys,
  signed-bound vs (only xs ys ++ ys) (union-IsSigners xs ys q r),
)

-- For validators of distinct addresses, the number of signers' power that is missing from the total
-- decides: a set of signers is a quorum exactly when the rest has at most a third of the power.
pub has_quorum-exact :
    (vs : AccountSet) (signers : List ℕ)
    → Distinct vs
    → (has_quorum (new_validator_set vs) signers ≡ true) ↔ (
        3 * get_total_voting_power vs
        ≤ 3 * aggregate_voting_power ((new_validator_set vs).voting_power_map) signers
          + get_total_voting_power vs)
unfolding new_validator_set
has_quorum-exact vs signers p =
    ground (arith, has_quorum_lem vs signers p, aggregate_lem vs signers p)

absent : (vs : AccountSet) (a : ℕ) → find vs a ≡ none → member a (get_addresses vs) ≡ false
unfolding find
absent [] a h = refl
absent (v ∷ vs) a h = ground (arith, h, absent vs a)

signed-all :
    (vs : AccountSet) → Distinct vs → signed vs (get_addresses vs) ≡ get_total_voting_power vs
unfolding signed find Distinct
signed-all [] p = refl
signed-all (v ∷ vs) p =
    ground (arith, signed-skip v vs (get_addresses vs) (absent vs v.address p.0), signed-all vs p.1)

-- The validators of a set of distinct addresses are together a quorum of it.
pub all-HasQuorum :
    (vs : AccountSet) → Distinct vs → has_quorum (new_validator_set vs) (get_addresses vs) ≡ true
all-HasQuorum vs p = (has_quorum_lem vs (get_addresses vs) p).1 (omega (arith, signed-all vs p))
