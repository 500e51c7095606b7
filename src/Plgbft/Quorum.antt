-- ===== src/Plgbft/Quorum.antt =====
-- consensus/plgbft/validator_set.go: when the voting power of signers is a quorum. Signers, the keys
-- of a Go map, are a list that holds an address once.
pub mod Laws
use go_plgchain.Base.{ℕ, ◌+◌, ◌-◌, ◌*◌, ◌/◌, List, [], ◌∷◌, Bool, Option, none, some, length, leb}
use go_plgchain.Base.Dict.{lookup, insert}
use go_plgchain.Plgbft.AccountSet.{
  ValidatorMetadata, AccountSet, contains_address, get_total_voting_power,
}

-- BigIntDivCeil of helper/common/common.go, on numbers with b > 0.
abbrev pub big_int_div_ceil : ℕ → ℕ → ℕ
big_int_div_ceil a b = (a + b - 1) / b

unfoldable pub get_quorum_size : ℕ → ℕ
get_quorum_size total_voting_power = big_int_div_ceil (total_voting_power * 2) 3

pub record ValidatorSet : Type 0 where
  pub validators : AccountSet
  pub voting_power_map : List (ℕ × ℕ)
  pub total_voting_power : ℕ
  pub quorum_size : ℕ

-- The loop that fills votingPowerMap.
unfoldable pub fill_powers : AccountSet → List (ℕ × ℕ) → List (ℕ × ℕ)
fill_powers [] m = m
fill_powers (v ∷ vs) m = fill_powers vs (insert v.address v.voting_power m)

unfoldable pub new_validator_set : AccountSet → ValidatorSet
new_validator_set valz =
    let total = get_total_voting_power valz in
    record {
      validators = valz;
      voting_power_map = fill_powers valz [];
      total_voting_power = total;
      quorum_size = get_quorum_size total;
    }

abbrev pub or_zero : Option ℕ → ℕ
or_zero none = 0
or_zero (some p) = p

-- The loop over the signers: those that are no validators add nothing.
unfoldable pub aggregate_voting_power : List (ℕ × ℕ) → List ℕ → ℕ
aggregate_voting_power m [] = 0
aggregate_voting_power m (a ∷ signers) = or_zero (lookup a m) + aggregate_voting_power m signers

unfoldable pub has_quorum : ValidatorSet → List ℕ → Bool
has_quorum vs signers = leb vs.quorum_size (aggregate_voting_power vs.voting_power_map signers)

abbrev pub includes : ValidatorSet → ℕ → Bool
includes vs addr = contains_address vs.validators addr
