-- ===== src/Examples/Records.antt =====
-- Theorems on the projection and the database at one input each.
use mathlib.Core.Bool.{false}
use cbdc_tokenization_sandbo.Prelude.{
  Bool, Text, [], arith, chain_identity_mismatch, codes, err, if◌then◌else◌,
  negative_projected_supply, negsuc, none, ok, pos, refl, some, suc, text_eq, to_lower_case, true,
  zero, ℕ, ℤ, ◌++◌, ◌+ℤ◌, ◌-ℤ◌, ◌<ℤ◌, ◌<◌, ◌>>=◌, ◌∷◌, ◌≡◌, ◌≤◌, ◌⊎◌,
}
use cbdc_tokenization_sandbo.Parsing.{trim}
use cbdc_tokenization_sandbo.Projection.Balance.Laws.{
  net_change, part, reduce_partition_transfer-double_entry, supply_change,
}
use cbdc_tokenization_sandbo.Projection.BondState.{
  BondState, Position, advance_position, apply_event, coupon_paid, empty_bond_state, enabled,
  reduce_bond_state, supply_delta,
}
use cbdc_tokenization_sandbo.Database.Schema.Laws.{
  bind_chain_identity-exclusive, open_all, open_database-keeps_records,
}
use cbdc_tokenization_sandbo.Database.{
  ChainIdentity, Database, RecordTables, empty_projection, empty_records,
}
use cbdc_tokenization_sandbo.Database.Schema.{bind_chain_identity, open_database, schema_version}
use cbdc_tokenization_sandbo.Projection.Balance.{reduce_partition_transfer, zero_address}
use cbdc_tokenization_sandbo.Projection.BondState.Laws.{
  IsValid, NotAfter, reduce_bond_state-IsValid, reduce_bond_state-coupon_paid_twice,
  reduce_bond_state-enabled_coupon_comm, reduce_bond_state-error,
}

abbrev holder_a : Text
holder_a = codes "0xaa"

abbrev isin_a : Text
isin_a = codes "NO001"

abbrev position : ℕ → Position
position n = record { block = n; log_index = 0 }

abbrev fresh : BondState
fresh = empty_bond_state isin_a (codes "0xp")

fresh-IsValid : IsValid fresh
unfolding empty_bond_state
fresh-IsValid = record { supply = omega arith; count = omega arith; dated = λ h. absurd (h refl) }

reduce_partition_transfer-double_entry_example :
    let deltas = reduce_partition_transfer zero_address holder_a (pos 5) in
    (net_change holder_a deltas ≡ (
      if text_eq zero_address holder_a
      then pos 0
      else part (to_lower_case holder_a) holder_a (pos 5)
        -ℤ part (to_lower_case zero_address) holder_a (pos 5)))
    × (supply_change deltas
        ≡ part (to_lower_case zero_address) zero_address (pos 5)
          -ℤ part (to_lower_case holder_a) zero_address (pos 5))
reduce_partition_transfer-double_entry_example =
    reduce_partition_transfer-double_entry zero_address holder_a (pos 5) holder_a

minted :
    reduce_bond_state fresh (supply_delta (pos 5)) (position 3)
    ≡ ok (record fresh { total_supply = pos 5; updated_block = 3 })
unfolding reduce_bond_state apply_event advance_position empty_bond_state ◌+ℤ◌
minted = refl

reduce_bond_state-IsValid_example :
    IsValid (record fresh { total_supply = pos 5; updated_block = 3 }) × NotAfter 3 0 3 0
unfolding empty_bond_state
reduce_bond_state-IsValid_example =
    reduce_bond_state-IsValid fresh (record fresh { total_supply = pos 5; updated_block = 3 })
      (supply_delta (pos 5)) (position 3) fresh-IsValid minted

overdrawn :
    reduce_bond_state fresh (supply_delta (negsuc 0)) (position 3)
    ≡ err (negative_projected_supply isin_a)
unfolding reduce_bond_state apply_event empty_bond_state ◌+ℤ◌
overdrawn = refl

reduce_bond_state-error_run :
    (delta : ℤ) × (supply_delta (negsuc 0) ≡ supply_delta delta)
    × (fresh.total_supply +ℤ delta <ℤ pos 0)
    × (negative_projected_supply isin_a ≡ negative_projected_supply fresh.isin)
reduce_bond_state-error_run =
    reduce_bond_state-error fresh (supply_delta (negsuc 0)) (position 3)
      (negative_projected_supply isin_a) overdrawn

reduce_bond_state-coupon_paid_twice_run :
    (reduce_bond_state fresh (coupon_paid (pos 1) (pos 99)) (position 3) >>= λ s'.
    reduce_bond_state s' (coupon_paid (pos 1) (pos 99)) (position 3))
    ≡ reduce_bond_state fresh (coupon_paid (pos 1) (pos 99)) (position 3)
reduce_bond_state-coupon_paid_twice_run =
    reduce_bond_state-coupon_paid_twice fresh (pos 1) (pos 99) (position 3)

reduce_bond_state-enabled_coupon_comm_example :
    (reduce_bond_state fresh (enabled (pos 10) (pos 400) (pos 90)) (position 3) >>= λ s'.
    reduce_bond_state s' (coupon_paid (pos 1) (pos 99)) (position 4))
    ≡ (reduce_bond_state fresh (coupon_paid (pos 1) (pos 99)) (position 4) >>= λ s'.
        reduce_bond_state s' (enabled (pos 10) (pos 400) (pos 90)) (position 3))
reduce_bond_state-enabled_coupon_comm_example =
    reduce_bond_state-enabled_coupon_comm fresh (pos 10) (pos 400) (pos 90) (pos 1) (pos 99)
      (position 3) (position 4) fresh-IsValid

abbrev old_file : Database
old_file = record {
  user_version = 4;
  projection = some empty_projection;
  records = some empty_records;
}

abbrev reopened : Database
reopened = open_all (true ∷ false ∷ true ∷ []) old_file

reopened_run : reopened ≡ record old_file { user_version = 6 }
unfolding open_all open_database
reopened_run = refl

open_database-keeps_records_example :
    (4 ≤ reopened.user_version)
    × ((reopened.records ≡ old_file.records)
        ⊎ ((old_file.records ≡ none) × (reopened.records ≡ some empty_records)))
    × ((reopened.projection ≡ old_file.projection)
        ⊎ (((4 < schema_version) ⊎ (old_file.projection ≡ none))
            × (reopened.projection ≡ some empty_projection)))
    × ((reopened ≡ old_file)
        ⊎ ((schema_version ≤ reopened.user_version)
            × ((schema_version ≤ 4) ⊎ (reopened.projection ≡ some empty_projection))
            × ((readonly : Bool) → open_database readonly reopened ≡ reopened)))
open_database-keeps_records_example =
    open_database-keeps_records (true ∷ false ∷ true ∷ []) old_file

abbrev repeated : ℕ → ℕ → Text
repeated zero c = []
repeated (suc n) c = c ∷ repeated n c

-- The genesis whose hash is sixty-four times one digit.
abbrev genesis : ℕ → ChainIdentity
genesis digit = record { chain_id = codes "1337"; genesis_hash = codes "0x" ++ repeated 64 digit }

abbrev bound_records : RecordTables
bound_records = record empty_records { chain_identity = some (genesis 97) }

bound : bind_chain_identity (genesis 97) [] empty_records ≡ ok bound_records
unfolding bind_chain_identity trim to_lower_case
bound = refl

bind_chain_identity-exclusive_example :
    bind_chain_identity (genesis 98) [] bound_records ≡ err chain_identity_mismatch
unfolding bind_chain_identity trim to_lower_case text_eq
bind_chain_identity-exclusive_example =
    bind_chain_identity-exclusive (genesis 97) (genesis 98) [] [] empty_records bound_records bound
