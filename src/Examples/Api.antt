-- ===== src/Examples/Api.antt =====
-- Theorems on the API's answers, the audit trail and the gates at one input each.
use mathlib.Core.List.{Perm}
use cbdc_tokenization_sandbo.Prelude.{
  Bool, Holds, List, Option, Result, Text, [], codes, err, false, get_or, leb, length, map, none,
  ok, refl, some, text_eq, to_lower_case, true, ℕ, ◌∷◌, ◌≡◌,
}
use cbdc_tokenization_sandbo.Database.Table.{find_row, has_row, select_rows}
use cbdc_tokenization_sandbo.Database.Records.{order_by}
use cbdc_tokenization_sandbo.Projection.Snapshots.{
  load_all_auction_snapshots, load_all_bond_snapshots,
}
use cbdc_tokenization_sandbo.Projection.AuctionView.{AuctionView, auction_type_of}
use cbdc_tokenization_sandbo.Database.Queries.{
  get_auction_allocations, get_auction_events_by_isin, get_bond_events_by_isin,
  get_bond_state_by_isin, get_projection_checkpoint, get_projection_context, list_all_auctions,
  list_auction_rows_by_isin,
}
use cbdc_tokenization_sandbo.Parsing.{trim}
use cbdc_tokenization_sandbo.Examples.{coder, isin_a}
use cbdc_tokenization_sandbo.Examples.Views.{context_example, never, row_in, state_example}
use cbdc_tokenization_sandbo.Compose.{ComposeOptions, compose_all_auctions, compose_all_bonds}
use cbdc_tokenization_sandbo.Compose.Bonds.{ShowsBonds, compose_all_bonds-ShowsBonds}
use cbdc_tokenization_sandbo.Compose.Errors.{compose_all_auctions-Perm, row_key, view_key}
use cbdc_tokenization_sandbo.Compose.History.{HistoryEvent, compose_bond_history, of_bond_event}
use cbdc_tokenization_sandbo.Database.{
  AuctionRow, AuctionStatus, BondEventRow, ProjectionTables, empty_projection, empty_records,
}
use cbdc_tokenization_sandbo.Service.Auth.{
  auth_middleware, authorize, entra, extract_bearer, has_role, next, require_any_role,
}
use cbdc_tokenization_sandbo.Service.Auth.Laws.{IsIn, authorize-entra}
use cbdc_tokenization_sandbo.Service.Operations.{
  RecordingOptions, Thrown, Trail, returned, with_operation_recording,
}
use cbdc_tokenization_sandbo.Service.Operations.Laws.{
  GrowsByOne, with_operation_recording-transparent,
}
use cbdc_tokenization_sandbo.Database.Bonds.{list_all_bonds}

abbrev by_length : Text → Text → Bool
by_length a b = leb (length a) (length b)

abbrev event_at : ℕ → BondEventRow
event_at block = record {
  isin = isin_a;
  type = codes "ISSUED";
  block = block;
  log_index = 0;
  tx_hash = [];
  payload = [];
}

abbrev tables_example : ProjectionTables
tables_example = record empty_projection {
  projection_context = some context_example;
  ingestion_state =
      record {
        contract = codes "c";
        last_block = 10;
        last_tx_index = 0;
        block_timestamp = some 1030;
      }
      ∷ [];
  partitions =
      record {
        partition = codes "0x1";
        isin = isin_a;
        bond = none;
        created_block = some 2;
        disabled = false;
      }
      ∷ [];
  bond_events = event_at 4 ∷ event_at 9 ∷ [];
}

abbrev options_example : ComposeOptions
options_example = record { reveal_open_bids = false; include_disabled = true }

abbrev auction_of : Text → ℕ → AuctionRow
auction_of id block = record (row_in AuctionStatus.open_status none) {
  auction_id = id;
  created_block = some block;
}

abbrev auctions_example : ProjectionTables
auctions_example = record tables_example {
  auctions = auction_of (codes "0x1") 3 ∷ auction_of (codes "0x2") 5 ∷ [];
}

compose_all_auctions-Perm_example :
    Holds
      (λ (views : List AuctionView).
        Perm (map view_key views) (map row_key auctions_example.auctions))
      (compose_all_auctions coder never (codes "c") 7 by_length auctions_example options_example)
compose_all_auctions-Perm_example =
    compose_all_auctions-Perm coder never (codes "c") 7 by_length auctions_example options_example

abbrev bonds_example : ProjectionTables
bonds_example = record tables_example { bond_states = state_example ∷ [] }

-- The lists are returned, of this length.
returned_length : {A : Type 0} → Result (List A) → Option ℕ
returned_length (ok xs) = some (length xs)
returned_length (err e) = none

bonds_run :
    returned_length
      (compose_all_bonds coder never (codes "c") 7 by_length bonds_example options_example)
    ≡ some 1
unfolding returned_length compose_all_bonds load_all_bond_snapshots get_projection_context
    get_projection_checkpoint find_row text_eq list_all_bonds order_by select_rows
    get_bond_state_by_isin list_auction_rows_by_isin
bonds_run = refl

auctions_run :
    returned_length
      (compose_all_auctions coder never (codes "c") 7 by_length auctions_example options_example)
    ≡ some 2
unfolding returned_length compose_all_auctions load_all_auction_snapshots get_projection_context
    get_projection_checkpoint find_row text_eq list_all_auctions order_by auction_type_of
    get_auction_allocations select_rows
auctions_run = refl

compose_all_bonds-ShowsBonds_example :
    Holds
      (ShowsBonds coder never (codes "c") 7 by_length true bonds_example)
      (compose_all_bonds coder never (codes "c") 7 by_length bonds_example options_example)
compose_all_bonds-ShowsBonds_example =
    compose_all_bonds-ShowsBonds coder never (codes "c") 7 by_length bonds_example options_example

abbrev history_example : List HistoryEvent
history_example = compose_bond_history tables_example isin_a (some 9) none

history_run : history_example ≡ of_bond_event (event_at 4) ∷ []
unfolding compose_bond_history get_auction_events_by_isin get_bond_events_by_isin text_eq
history_run = refl

abbrev mint_example : RecordingOptions ℕ
mint_example = record {
  op_type = codes "WNOK_MINT";
  target = codes "0xaa";
  detail = none;
  has_interfaces = true;
  tx_hash_of = some (λ n. returned (some (codes "0x7")));
  changed_resources = none;
}

abbrev trail_example : Trail
trail_example = record { tables = empty_records; published = [] }

abbrev undecoded : Thrown → Option Text
undecoded _ = none

with_operation_recording-transparent_example :
    ((with_operation_recording undecoded
        (λ tables. true)
        5
        mint_example
        (returned 3)
        trail_example).0
      ≡ returned 3)
    × GrowsByOne mint_example
        (returned 3)
        true
        empty_records
        (with_operation_recording undecoded
          (λ tables. true)
          5
          mint_example
          (returned 3)
          trail_example).1.tables
with_operation_recording-transparent_example =
    with_operation_recording-transparent undecoded (λ tables. true) 5 mint_example (returned 3)
      trail_example (λ value same. (some (codes "0x7"), refl))

abbrev verify_example : Text → Result (Option (List Text))
verify_example token = ok (some (codes "viewer" ∷ codes "operator" ∷ []))

authorize_run :
    authorize verify_example entra (codes "operator" ∷ []) (some (codes "BEARER t1 "))
    ≡ next (codes "viewer" ∷ codes "operator" ∷ [])
unfolding authorize auth_middleware require_any_role has_role has_row extract_bearer trim text_eq
    to_lower_case
authorize_run = refl

authorize-entra_example :
    (token : Text) × (claim : Option (List Text)) × (role : Text) × (extract_bearer
        (some (codes "BEARER t1 "))
      ≡ some token)
    × (verify_example token ≡ ok claim)
    × ((codes "viewer" ∷ codes "operator" ∷ []) ≡ get_or claim [])
    × IsIn role (codes "operator" ∷ [])
    × IsIn role (codes "viewer" ∷ codes "operator" ∷ [])
authorize-entra_example =
    authorize-entra verify_example (codes "operator" ∷ []) (some (codes "BEARER t1 "))
      (codes "viewer" ∷ codes "operator" ∷ []) authorize_run
