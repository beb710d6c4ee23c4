-- ===== src/Compose/History.antt =====
-- compose.ts, `composeBondHistory`: the events of a bond and of its auctions, the newest first. The
-- payload is the parsed JSON: its fields.
use cbdc_tokenization_sandbo.Prelude.{
  Bool, List, Option, Text, case_option, get_or, if◌then◌else◌, leb, leb_ℤ, length, ltb, map,
  negsuc, none, pos, some, suc, take, true, ℕ, ℤ, ◌*◌, ◌++◌, ◌+◌, ◌-◌,
}
use cbdc_tokenization_sandbo.Database.{AuctionEventRow, BondEventRow, Payload, ProjectionTables}
use cbdc_tokenization_sandbo.Database.Queries.{get_auction_events_by_isin, get_bond_events_by_isin}
use cbdc_tokenization_sandbo.Database.Records.{order_by}
use cbdc_tokenization_sandbo.Database.Table.{select_rows}

pub record HistoryEvent : Type 0 where
  pub isin : Text
  pub auction_id : Option Text
  pub type : Text
  pub block : ℕ
  pub tx_hash : Text
  pub payload : Payload

abbrev pub of_auction_event : AuctionEventRow → HistoryEvent
of_auction_event event = record {
  isin = event.isin;
  auction_id = some event.auction_id;
  type = event.type;
  block = event.block;
  tx_hash = event.tx_hash;
  payload = event.payload;
}

abbrev pub of_bond_event : BondEventRow → HistoryEvent
of_bond_event event = record {
  isin = event.isin;
  auction_id = none;
  type = event.type;
  block = event.block;
  tx_hash = event.tx_hash;
  payload = event.payload;
}

-- `Math.min(options.limit ?? 100, 500)`. A limit can be negative; one that is no integer stays out.
unfoldable pub history_limit : Option ℤ → ℤ
history_limit limit =
    let asked = get_or limit (pos 100) in if leb_ℤ asked (pos 500) then asked else pos 500

-- `limit * 4`
abbrev pub fetch_limit_of : ℤ → ℤ
fetch_limit_of (pos n) = pos (n * 4)
fetch_limit_of (negsuc n) = negsuc (n * 4 + 3)

-- `rows.slice(0, end)`: a negative end counts from the back.
abbrev pub slice_to : {A : Type 0} → ℤ → List A → List A
slice_to (pos n) rows = take n rows
slice_to (negsuc n) rows = take (length rows - suc n) rows

abbrev pub is_before : Option ℕ → HistoryEvent → Bool
is_before before event = case_option before true (λ block. ltb event.block block)

unfoldable pub merged_events : Text → ℤ → ProjectionTables → List HistoryEvent
merged_events isin fetch_limit db =
    map of_auction_event (get_auction_events_by_isin isin fetch_limit 0 db)
    ++ map of_bond_event (get_bond_events_by_isin isin fetch_limit 0 db)

abbrev pub newest_first : HistoryEvent → HistoryEvent → Bool
newest_first a b = leb b.block a.block

unfoldable pub compose_bond_history :
    ProjectionTables → Text → Option ℕ → Option ℤ → List HistoryEvent
unfolding history_limit merged_events order_by select_rows
compose_bond_history db isin before limit =
    let size = history_limit limit in
    slice_to size (
      order_by newest_first
        (select_rows (is_before before) (merged_events isin (fetch_limit_of size) db)))
