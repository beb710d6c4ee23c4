-- ===== src/Database.antt =====
-- services/nb-bond-api/src/ingestion-db.ts, `createTables`: the tables of the ingestion database.
-- Decimal text columns are the integers that they denote, 0/1 columns are Booleans, JSON columns the
-- fields that are serialised. `bond_state` rows are values of `BondState`; the column
-- `redemption_complete` is never written and stays out.
pub mod Table
pub mod Schema
pub mod Records
pub mod Queries
pub mod Bonds
use cbdc_tokenization_sandbo.Prelude.{Bool, List, Option, Text, [], get_or, none, some, ℕ, ℤ}
use cbdc_tokenization_sandbo.Allocation.{AuctionType}
use cbdc_tokenization_sandbo.Projection.Balance.{TransferKind}
use cbdc_tokenization_sandbo.Projection.BondState.{BondState}

-- The fields of a JSON payload.
abbrev pub Payload : Type 0
Payload = List (Text × Text)

pub record Checkpoint : Type 0 where
  pub contract : Text
  pub last_block : ℕ
  pub last_tx_index : ℕ
  pub block_timestamp : Option ℕ

pub record ProjectionContext : Type 0 where
  pub manager_address : Text
  pub token_address : Text
  pub auction_address : Text
  pub duration_scalar : ℤ

pub data AuctionStatus : Type 0 where
  open_status closed_status finalised_status cancelled_status : AuctionStatus

pub record AuctionRow : Type 0 where
  pub auction_id : Text
  pub isin : Text
  pub type : Option Text
  pub created_block : Option ℕ
  pub created_tx : Option Text
  pub bond : Option Text
  pub owner : Option Text
  pub end : Option ℤ
  pub offering : Option ℤ
  pub auction_pub_key : Option Text
  pub status : AuctionStatus
  pub closed_at : Option ℤ
  pub finalised_at : Option ℤ

pub record AuctionEventRow : Type 0 where
  pub auction_id : Text
  pub isin : Text
  pub type : Text
  pub block : ℕ
  pub log_index : ℕ
  pub tx_hash : Text
  pub payload : Payload

pub record AuctionBidRow : Type 0 where
  pub auction_id : Text
  pub bid_index : ℕ
  pub bidder : Text
  pub ciphertext : Text
  pub plaintext_hash : Text
  pub cancelled : Bool
  pub source_block : ℕ
  pub source_log_index : ℕ

pub record AuctionAllocationRow : Type 0 where
  pub auction_id : Text
  pub position : ℕ
  pub bidder : Text
  pub units : ℤ
  pub rate : ℤ
  pub auction_type : AuctionType
  pub source_block : ℕ

pub record PartitionRow : Type 0 where
  pub partition : Text
  pub isin : Text
  pub bond : Option Text
  pub created_block : Option ℕ
  pub disabled : Bool

pub record BalanceRow : Type 0 where
  pub isin : Text
  pub holder : Text
  pub balance : ℤ

pub record BalanceEventRow : Type 0 where
  pub isin : Text
  pub holder : Text
  pub delta : ℤ
  pub balance_after : ℤ
  pub block : ℕ
  pub log_index : ℕ
  pub tx_hash : Text
  pub kind : TransferKind

pub record BondEventRow : Type 0 where
  pub isin : Text
  pub type : Text
  pub block : ℕ
  pub log_index : ℕ
  pub tx_hash : Text
  pub payload : Payload

-- The tables that are rebuilt from the chain: `PROJECTION_TABLE_NAMES`.
pub record ProjectionTables : Type 0 where
  pub ingestion_state : List Checkpoint
  pub projection_context : Option ProjectionContext
  pub auctions : List AuctionRow
  pub auction_events : List AuctionEventRow
  pub auction_bids : List AuctionBidRow
  pub auction_allocations : List AuctionAllocationRow
  pub partitions : List PartitionRow
  pub bond_states : List BondState
  pub balances : List BalanceRow
  pub balance_events : List BalanceEventRow
  pub bond_events : List BondEventRow

pub record BidderRow : Type 0 where
  pub address : Text
  pub name : Text
  pub public_key : Text
  pub private_key : Text
  pub created_at : ℕ

pub record BankRow : Type 0 where
  pub address : Text
  pub name : Text
  pub private_key : Text
  pub contract_name : Text
  pub tbd_address : Text
  pub created_at : ℕ

pub record OperationAttemptRow : Type 0 where
  pub id : ℕ
  pub op_type : Text
  pub target : Text
  pub status : Text
  pub tx_hash : Option Text
  pub error : Option Text
  pub detail : Option Text
  pub created_at : ℕ

pub record ChainIdentity : Type 0 where
  pub chain_id : Text
  pub genesis_hash : Text

-- The tables that hold what the chain does not.
pub record RecordTables : Type 0 where
  pub bidders : List BidderRow
  pub banks : List BankRow
  pub operation_attempts : List OperationAttemptRow
  pub chain_identity : Option ChainIdentity

-- A database file: `none` where the tables do not exist.
pub record Database : Type 0 where
  pub user_version : ℕ
  pub projection : Option ProjectionTables
  pub records : Option RecordTables

abbrev pub empty_projection : ProjectionTables
empty_projection = record {
  ingestion_state = [];
  projection_context = none;
  auctions = [];
  auction_events = [];
  auction_bids = [];
  auction_allocations = [];
  partitions = [];
  bond_states = [];
  balances = [];
  balance_events = [];
  bond_events = [];
}

abbrev pub empty_records : RecordTables
empty_records = record { bidders = []; banks = []; operation_attempts = []; chain_identity = none }

-- `CREATE TABLE IF NOT EXISTS …` for every table.
unfoldable pub create_tables : Database → Database
create_tables db = record db {
  projection = some (get_or db.projection empty_projection);
  records = some (get_or db.records empty_records);
}
