-- ===== src/Plgbft/Tests.antt =====
-- Runs of the validator sets of consensus/plgbft on small inputs.
use go_plgchain.Base.{
  ℕ, ◌+◌, ◌≡◌, ◌≢◌, ◌≤◌, ◌*◌, ◌↔◌, refl, [], ◌∷◌, true, none, some, length, ◌==◌, if◌then◌else◌,
  arith,
}
use go_plgchain.Plgbft.Bitmap.{set_bit, is_set, has_bit, with_bit}
use go_plgchain.Plgbft.Bitmap.Laws.{is_set-set_bit}
use go_plgchain.Plgbft.AccountSet.{
  ValidatorMetadata, AccountSet, index, get_validator_metadata, get_filtered_validators, select,
  any_set, get_total_voting_power, equals,
}
use go_plgchain.Plgbft.AccountSet.Laws.{find, Distinct}
use go_plgchain.Plgbft.AccountSet.Filtered.{filtered_refuses, filtered_chosen, chosen}
use go_plgchain.Plgbft.Delta.{
  ValidatorSetDelta, index_old, diff_one, diff_all, set_all, create_validator_set_delta,
  apply_delta,
}
use go_plgchain.Base.Dict.{lookup, insert, delete}
use go_plgchain.Plgbft.Delta.Errors.{Clash, create_refuses}
use go_plgchain.Plgbft.Delta.Laws.{create_then_apply}
use go_plgchain.Plgbft.Quorum.{
  new_validator_set, fill_powers, get_quorum_size, has_quorum, aggregate_voting_power,
}
use go_plgchain.Plgbft.Quorum.Laws.{IsSigners, common, quorums_meet, has_quorum-exact}

abbrev validator : ℕ → ℕ → ValidatorMetadata
validator a power = record {
  address = a;
  bls_key = a + 100;
  voting_power = power;
  is_active = true;
}

-- Three validators; then the second leaves, the third changes its power and a fourth comes.
abbrev old_set : AccountSet
old_set = validator 1 10 ∷ validator 2 20 ∷ validator 3 30 ∷ []

abbrev new_set : AccountSet
new_set = validator 3 35 ∷ validator 4 40 ∷ validator 1 10 ∷ []

abbrev delta : ValidatorSetDelta
delta = record { added = validator 4 40 ∷ []; updated = validator 3 35 ∷ []; removed = 2 ∷ [] }

old_set-Distinct : Distinct old_set
unfolding Distinct find
old_set-Distinct = (refl, (refl, (refl, tt)))

new_set-Distinct : Distinct new_set
unfolding Distinct find
new_set-Distinct = (refl, (refl, (refl, tt)))

no_zero : get_validator_metadata old_set 0 ≡ none
unfolding get_validator_metadata index
no_zero = refl

creates : create_validator_set_delta old_set new_set ≡ some delta
unfolding create_validator_set_delta index_old insert delete lookup diff_all diff_one set_all
    set_bit with_bit equals
creates = refl

create_then_apply_example :
    (r : AccountSet) × (apply_delta old_set delta ≡ some r)
    × ((a : ℕ) → get_validator_metadata r a ≡ get_validator_metadata new_set a)
create_then_apply_example =
    create_then_apply old_set new_set delta old_set-Distinct new_set-Distinct no_zero creates

create_refuses_example : (create_validator_set_delta old_set new_set ≡ none) ↔ Clash old_set new_set
create_refuses_example = create_refuses old_set new_set old_set-Distinct no_zero

is_set-set_bit_example :
    is_set (set_bit (2 ∷ []) 9) 1 ≡ (if 9 == 1 then true else is_set (2 ∷ []) 1)
is_set-set_bit_example = is_set-set_bit (2 ∷ []) 9 1

three : length old_set ≢ 0
three h = ground (arith, h)

filtered_refuses_example :
    (get_filtered_validators old_set (8 ∷ []) ≡ none)
    ↔ ((i : ℕ) × (length old_set ≤ i) × (is_set (8 ∷ []) i ≡ true))
filtered_refuses_example = filtered_refuses old_set (8 ∷ []) three

filters : get_filtered_validators old_set (5 ∷ []) ≡ some (validator 1 10 ∷ validator 3 30 ∷ [])
unfolding get_filtered_validators any_set select is_set has_bit
filters = refl

filtered_chosen_example :
    get_validator_metadata (validator 1 10 ∷ validator 3 30 ∷ []) 3
    ≡ (if chosen (5 ∷ []) (index old_set 3) then get_validator_metadata old_set 3 else none)
filtered_chosen_example =
    filtered_chosen old_set (5 ∷ []) (validator 1 10 ∷ validator 3 30 ∷ []) old_set-Distinct filters
      3

first_and_third : IsSigners (1 ∷ 3 ∷ [])
unfolding IsSigners
first_and_third = (refl, (refl, tt))

second_and_third : IsSigners (3 ∷ 2 ∷ [])
unfolding IsSigners
second_and_third = (refl, (refl, tt))

signs : has_quorum (new_validator_set old_set) (1 ∷ 3 ∷ []) ≡ true
unfolding has_quorum new_validator_set fill_powers insert lookup get_quorum_size
    aggregate_voting_power
signs = refl

signs_too : has_quorum (new_validator_set old_set) (3 ∷ 2 ∷ []) ≡ true
unfolding has_quorum new_validator_set fill_powers insert lookup get_quorum_size
    aggregate_voting_power
signs_too = refl

quorums_meet_example :
    get_total_voting_power old_set
    ≤ 3
      * aggregate_voting_power
          ((new_validator_set old_set).voting_power_map)
          (common (1 ∷ 3 ∷ []) (3 ∷ 2 ∷ []))
quorums_meet_example =
    quorums_meet old_set (1 ∷ 3 ∷ []) (3 ∷ 2 ∷ []) old_set-Distinct first_and_third second_and_third
      signs signs_too

has_quorum-exact_example : (has_quorum (new_validator_set old_set) (1 ∷ 3 ∷ []) ≡ true) ↔ (
    3 * get_total_voting_power old_set
    ≤ 3 * aggregate_voting_power ((new_validator_set old_set).voting_power_map) (1 ∷ 3 ∷ [])
      + get_total_voting_power old_set)
has_quorum-exact_example = has_quorum-exact old_set (1 ∷ 3 ∷ []) old_set-Distinct

-- Runs of the validator sets of consensus/plgbft on small inputs.
