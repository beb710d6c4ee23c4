-- ===== src/Compose/Bonds.antt =====
-- compose.ts, `composeAllBonds`: which bonds are in the list.
use mathlib.Core.Path.{subst}
use cbdc_tokenization_sandbo.Prelude.{
  &&-true, ==_iff, All, Bool, Bool-cases, Holds, Holds-any, Holds-map, List, Option-cases, Text, [],
  ap, ap₂, arith, case_option-holds, if-holds, inl, inr, length, map, not, refl, sequence_map, suc,
  sym, text_eq, text_eq_iff, ℕ, ◌==◌, ◌||◌, ◌∙◌, ◌∷◌, ◌≡◌, ◌≤◌, ◌⊎◌,
}
use cbdc_tokenization_sandbo.Database.Bonds.{
  BondRow, add_partition, group_bonds, list_all_bonds, same_contract, same_group,
}
use cbdc_tokenization_sandbo.Database.Records.{order_by, place}
use cbdc_tokenization_sandbo.Database.Table.{find_row, select_rows}
use cbdc_tokenization_sandbo.Compose.Errors.{sequence_map-keys}
use cbdc_tokenization_sandbo.Projection.Snapshots.{
  BondSnapshot, ProjectionCheckpoint, bond_snapshots, load_all_bond_snapshots, projection_head,
}
use cbdc_tokenization_sandbo.Database.{PartitionRow, ProjectionContext, ProjectionTables}
use cbdc_tokenization_sandbo.Allocation.Sort.{All-imp}
use cbdc_tokenization_sandbo.Projection.BondView.{BondView, compose_projected_bond}
use cbdc_tokenization_sandbo.Ingestion.Writes.{is_bond}
use cbdc_tokenization_sandbo.Allocation.{AbiCoder}
use cbdc_tokenization_sandbo.Database.Table.Laws.{find_row-satisfies}
use cbdc_tokenization_sandbo.Compose.{ComposeOptions, compose_all_bonds}
use cbdc_tokenization_sandbo.Projection.Concealed.{Unseal}
use cbdc_tokenization_sandbo.Database.Queries.{get_bond_state_by_isin}

-- The text is one of the list.
abbrev pub Among : Text → List Text → Type 0
Among x [] = ⊥
Among x (y ∷ ys) = (y ≡ x) ⊎ Among x ys

abbrev pub bond_isins : List BondRow → List Text
bond_isins = map (λ (row : BondRow). row.isin)

module _ (before : BondRow → BondRow → Bool) (x : Text) where
  place-Among :
      (g : BondRow) (gs : List BondRow)
      → Among x (bond_isins (g ∷ gs))
      → Among x (bond_isins (place before g gs))
  unfolding place
  place-Among g [] m = m
  place-Among g (h ∷ gs) m =
      if-holds (λ (l : List BondRow). Among x (bond_isins l)) (before g h) m
        (elim m [
          | inl e ↦ inr (place-Among g gs (inl e))
          | inr rest ↦ elim rest [ inl e ↦ inl e | inr later ↦ inr (place-Among g gs (inr later)) ]
        ])

  order_by-Among :
      (gs : List BondRow) → Among x (bond_isins gs) → Among x (bond_isins (order_by before gs))
  unfolding order_by
  order_by-Among [] m = m
  order_by-Among (g ∷ gs) m = elim m [
    | inl e ↦ place-Among g (order_by before gs) (inl e)
    | inr later ↦ place-Among g (order_by before gs) (inr (order_by-Among gs later))
  ]

-- A partition's ISIN is among the groups that it joins, and no other gets lost.
add_partition-Among :
    (row : PartitionRow) (gs : List BondRow) → Among row.isin (bond_isins (add_partition row gs))
unfolding add_partition
add_partition-Among row [] = inl refl
add_partition-Among row (g ∷ gs) = elim (Bool-cases (same_group row g)) [
  | inl same ↦
      let (same_isin, _) = &&-true (text_eq row.isin g.isin) (same_contract row.bond g.bond) same in
      rw (same) (inl (sym ((text_eq_iff row.isin g.isin).0 same_isin)))
  | inr other ↦ rw (other) (inr (add_partition-Among row gs))
]

add_partition-keeps :
    (x : Text) (row : PartitionRow) (gs : List BondRow)
    → Among x (bond_isins gs)
    → Among x (bond_isins (add_partition row gs))
unfolding add_partition
add_partition-keeps x row [] m = absurd m
add_partition-keeps x row (g ∷ gs) m =
    if-holds (λ (l : List BondRow). Among x (bond_isins l)) (same_group row g) m
      (elim m [ inl e ↦ inl e | inr later ↦ inr (add_partition-keeps x row gs later) ])

group_bonds-Among :
    (rows : List PartitionRow)
    → All (λ (row : PartitionRow). Among row.isin (bond_isins (group_bonds rows))) rows
unfolding group_bonds
group_bonds-Among [] = tt
group_bonds-Among (row ∷ rows) = (
  add_partition-Among row (group_bonds rows),
  All-imp (λ (r : PartitionRow). Among r.isin (bond_isins (group_bonds rows)))
      (λ (r : PartitionRow). Among r.isin (bond_isins (add_partition row (group_bonds rows))))
      (λ r. add_partition-keeps r.isin row (group_bonds rows)) rows (group_bonds-Among rows),
)

no_bonds : (rows : List BondRow) → length rows ≡ 0 → rows ≡ []
no_bonds [] e = refl
no_bonds (row ∷ rows) e = absurd (omega arith)

module _ (coder : AbiCoder) (unseal : Unseal) (contract : Text) (now : ℕ)
    (text_leb : Text → Text → Bool) where
  bond_snapshots-length :
      (db : ProjectionTables) (head : ProjectionContext × ProjectionCheckpoint)
      (rows : List BondRow)
      → length (bond_snapshots contract text_leb db head rows) ≤ length rows
  unfolding bond_snapshots
  bond_snapshots-length db head [] = omega arith
  bond_snapshots-length db head (row ∷ rows) =
      let rest = bond_snapshots-length db head rows in
      case_option-holds (λ (l : List BondSnapshot). length l ≤ suc (length rows))
        (get_bond_state_by_isin row.isin db) (omega (arith, rest)) (λ state. omega (arith, rest))

  abbrev snapshot_isin : BondSnapshot → Text
  snapshot_isin snapshot = snapshot.state.isin

  -- As many snapshots as rows: then every row has its snapshot.
  bond_snapshots-isins :
      (db : ProjectionTables) (head : ProjectionContext × ProjectionCheckpoint)
      (rows : List BondRow)
      → length (bond_snapshots contract text_leb db head rows) ≡ length rows
      → map snapshot_isin (bond_snapshots contract text_leb db head rows) ≡ bond_isins rows
  unfolding bond_snapshots get_bond_state_by_isin
  bond_snapshots-isins db head [] e = refl
  bond_snapshots-isins db head (row ∷ rows) e =
      elim (Option-cases (find_row (is_bond row.isin) db.bond_states)) [
        | inl missing ↦
            let short : length (bond_snapshots contract text_leb db head rows) ≡ suc (length rows) =
              rw (missing) at e in
            absurd (omega (arith, bond_snapshots-length db head rows))
        | inr (state, there) ↦
            let rest : suc (length (bond_snapshots contract text_leb db head rows))
                ≡ suc (length rows) =
              rw (there) at e in
            let is_its = find_row-satisfies (is_bond row.isin) db.bond_states state there in
            rw (there) (
              ap₂ ◌∷◌ ((text_eq_iff state.isin row.isin).0 is_its)
                (bond_snapshots-isins db head rows (omega (arith, rest))))
      ]

  -- What is listed and shown of the partitions.
  abbrev pub ShowsBonds : Bool → ProjectionTables → List BondView → Type 0
  ShowsBonds include_disabled db views =
      (map (λ (view : BondView). view.isin) views
        ≡ bond_isins (list_all_bonds text_leb include_disabled db))
      × All (λ (row : PartitionRow). Among row.isin (map (λ (view : BondView). view.isin) views))
          (select_rows (λ (row : PartitionRow). include_disabled || not row.disabled) db.partitions)

  listed-Among :
      (include_disabled : Bool) (db : ProjectionTables)
      → All
          (λ (row : PartitionRow).
            Among row.isin (bond_isins (list_all_bonds text_leb include_disabled db)))
          (select_rows (λ (row : PartitionRow). include_disabled || not row.disabled) db.partitions)
  unfolding list_all_bonds
  listed-Among include_disabled db =
      let rows =
        select_rows (λ (row : PartitionRow). include_disabled || not row.disabled) db.partitions in
      All-imp (λ (r : PartitionRow). Among r.isin (bond_isins (group_bonds rows))) _
        (λ r. order_by-Among _ r.isin (group_bonds rows)) rows (group_bonds-Among rows)

  shows_bonds :
      (include_disabled : Bool) (db : ProjectionTables) (views : List BondView)
      → map (λ (view : BondView). view.isin) views
        ≡ bond_isins (list_all_bonds text_leb include_disabled db)
      → ShowsBonds include_disabled db views
  shows_bonds include_disabled db views e = (
    e,
    subst
        (λ (isins : List Text).
          All (λ (row : PartitionRow). Among row.isin isins)
            (select_rows (λ (row : PartitionRow). include_disabled || not row.disabled)
              db.partitions))
        (sym e) (listed-Among include_disabled db),
  )

  bond_view-isin :
      (snapshot : BondSnapshot)
      → Holds
          (λ (view : BondView). view.isin ≡ snapshot_isin snapshot)
          (compose_projected_bond coder unseal now snapshot)
  unfolding compose_projected_bond
  bond_view-isin snapshot = Holds-any _ (sequence_map _ snapshot.auctions) _ (λ auctions. refl)

  snapshots_isins :
      (include_disabled : Bool) (db : ProjectionTables)
      → length (load_all_bond_snapshots contract text_leb include_disabled db)
        ≡ length (list_all_bonds text_leb include_disabled db)
      → map snapshot_isin (load_all_bond_snapshots contract text_leb include_disabled db)
        ≡ bond_isins (list_all_bonds text_leb include_disabled db)
  unfolding load_all_bond_snapshots
  snapshots_isins include_disabled db e = elim (Option-cases (projection_head contract db)) [
    | inl unready ↦
        let empty : 0 ≡ length (list_all_bonds text_leb include_disabled db) = rw (unready) at e in
        rw (unready)
          (ap bond_isins (sym (no_bonds (list_all_bonds text_leb include_disabled db) (sym empty))))
    | inr (head, ready) ↦ rw (ready) (
        bond_snapshots-isins db head (list_all_bonds text_leb include_disabled db)
          (rw (ready) at e))
  ]

  -- If composeAllBonds returns, it has one bond for each that listAllBonds lists, in their order, and
  -- so the ISIN of every partition is among them, but for disabled ones where these are left out.
  pub compose_all_bonds-ShowsBonds :
      (db : ProjectionTables) (options : ComposeOptions)
      → Holds
          (ShowsBonds options.include_disabled db)
          (compose_all_bonds coder unseal contract now text_leb db options)
  unfolding compose_all_bonds
  compose_all_bonds-ShowsBonds db options =
      let snapshots = load_all_bond_snapshots contract text_leb options.include_disabled db in
      let listed = list_all_bonds text_leb options.include_disabled db in
      elim (Bool-cases (length snapshots == length listed)) [
        | inr differs ↦ rw (differs) tt
        | inl same ↦ rw (same) (
            Holds-map _ (ShowsBonds options.include_disabled db)
              (sequence_map (compose_projected_bond coder unseal now) snapshots)
              (sequence_map-keys (compose_projected_bond coder unseal now)
                (λ (view : BondView). view.isin) snapshot_isin snapshots bond_view-isin)
              (λ views keys. shows_bonds options.include_disabled db views (
                keys
                ∙ snapshots_isins options.include_disabled db
                    ((==_iff (length snapshots) (length listed)).0 same))))
      ]
