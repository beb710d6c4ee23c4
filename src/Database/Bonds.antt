-- ===== src/Database/Bonds.antt =====
-- ingestion-db.ts, `listAllBonds`: the bonds of the partitions, one for each ISIN and bond contract,
-- with the earliest block in which one of its partitions was created.
use cbdc_tokenization_sandbo.Prelude.{
  Bool, List, Option, Text, [], false, if◌then◌else◌, min, none, not, some, text_eq, true, ℕ, ◌&&◌,
  ◌||◌, ◌∷◌,
}
use cbdc_tokenization_sandbo.Database.{PartitionRow, ProjectionTables}
use cbdc_tokenization_sandbo.Database.Queries.{block_lt}
use cbdc_tokenization_sandbo.Database.Records.{order_by}
use cbdc_tokenization_sandbo.Database.Table.{select_rows}

pub record BondRow : Type 0 where
  pub isin : Text
  pub bond : Option Text
  pub created_block : Option ℕ

abbrev pub same_contract : Option Text → Option Text → Bool
same_contract none none = true
same_contract (some a) (some b) = text_eq a b
same_contract _ _ = false

-- `MIN` of a column, which passes over missing values.
abbrev pub min_block : Option ℕ → Option ℕ → Option ℕ
min_block none b = b
min_block (some a) none = some a
min_block (some a) (some b) = some (min a b)

abbrev pub same_group : PartitionRow → BondRow → Bool
same_group row bond_row = text_eq row.isin bond_row.isin && same_contract row.bond bond_row.bond

-- A partition joins its group, or begins one.
unfoldable pub add_partition : PartitionRow → List BondRow → List BondRow
add_partition row [] =
    record { isin = row.isin; bond = row.bond; created_block = row.created_block } ∷ []
add_partition row (g ∷ groups) =
    let rest = add_partition row groups in
    if same_group row g
    then record g { created_block = min_block row.created_block g.created_block } ∷ groups
    else g ∷ rest

unfoldable pub group_bonds : List PartitionRow → List BondRow
unfolding add_partition
group_bonds [] = []
group_bonds (row ∷ rows) = add_partition row (group_bonds rows)

unfoldable pub list_all_bonds : (Text → Text → Bool) → Bool → ProjectionTables → List BondRow
unfolding group_bonds
list_all_bonds text_leb include_disabled db =
    order_by
      (λ (a : BondRow) (b : BondRow).
        block_lt a.created_block b.created_block
        || (not (block_lt b.created_block a.created_block) && text_leb a.isin b.isin))
      (group_bonds
        (select_rows (λ (row : PartitionRow). include_disabled || not row.disabled) db.partitions))
