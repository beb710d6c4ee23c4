-- ===== src/Projection.antt =====
-- services/nb-bond-api/src/projection: the reducers that turn chain events into balances and bond
-- states, which the ingestion applies inside a transaction; and the views that the API composes from
-- the tables, with compose.ts.
pub mod Balance
pub mod BondState
pub mod Snapshots
pub mod AuctionView
pub mod BondView
pub mod Concealed
