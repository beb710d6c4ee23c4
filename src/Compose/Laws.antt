-- ===== src/Compose/Laws.antt =====
-- compose.ts, `composeBondHistory`: which events are in the history.
use mathlib.Core.List.Perm
use mathlib.Core.List.{Perm}
use cbdc_tokenization_sandbo.Prelude.{
  Bool, List, Option, Text, leb, map, min, negsuc, pos, suc, text_eq, ℕ, ℤ, ◌*◌, ◌++◌, ◌-◌, ◌≤◌,
}
use cbdc_tokenization_sandbo.Compose.History.{
  HistoryEvent, is_before, of_auction_event, of_bond_event,
}
use cbdc_tokenization_sandbo.Database.{AuctionEventRow, BondEventRow, ProjectionTables}
use cbdc_tokenization_sandbo.Database.Table.{select_rows}

-- The rows of a table for an ISIN are within what a history of this limit reads of the table.
abbrev pub Fetches : ℤ → ℕ → Type 0
Fetches (pos size) rows = rows ≤ size * 4
Fetches (negsuc _) rows = Unit

-- How many of the events are shown.
abbrev pub shown_of : ℤ → ℕ → ℕ
shown_of (pos size) events = min size events
shown_of (negsuc n) events = events - suc n

abbrev pub auction_events_of : Text → ProjectionTables → List AuctionEventRow
auction_events_of isin db =
    select_rows (λ (e : AuctionEventRow). text_eq e.isin isin) db.auction_events

abbrev pub bond_events_of : Text → ProjectionTables → List BondEventRow
bond_events_of isin db = select_rows (λ (e : BondEventRow). text_eq e.isin isin) db.bond_events

-- All events of a bond and of its auctions in the tables, before a block.
abbrev pub all_events : Text → Option ℕ → ProjectionTables → List HistoryEvent
all_events isin before db =
    select_rows (is_before before) (
      map of_auction_event (auction_events_of isin db)
      ++ map of_bond_event (bond_events_of isin db))

abbrev by_block : {A : Type 0} → (A → ℕ) → A → A → Bool
by_block block a b = leb (block a) (block b)
