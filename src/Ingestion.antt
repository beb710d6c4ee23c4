-- ===== src/Ingestion.antt =====
-- services/nb-bond-api/src/ingestion.ts: the chain events that the service projects, as `ethers`
-- decodes them, and the logs that carry them.
pub mod Writes
pub mod Apply
pub mod Read
pub mod Range
pub mod Window
pub mod Boot
use cbdc_tokenization_sandbo.Prelude.{List, Option, Text, ℕ, ℤ}
use cbdc_tokenization_sandbo.Allocation.{AuctionType}

-- The argument `isin` of an event: absent, a text, or the hash object of an indexed parameter, whose
-- hash is a text or not.
pub data IsinArg : Type 0 where
  absent : IsinArg
  plain : Text → IsinArg
  indexed : Option Text → IsinArg

-- Events of the BondManager contract.
pub data ManagerEvent : Type 0 where
  -- which of the three kinds; auction, ISIN, bond address
  auction_initialised : AuctionType → Text → Text → Option Text → ManagerEvent
  -- auction, ISIN
  auction_closed auction_finalised auction_cancelled : Text → Text → ManagerEvent
  -- ISIN, holder, amount, payment number
  holder_paid : IsinArg → Text → ℤ → ℤ → ManagerEvent
  -- ISIN, payment number, holders paid, coupon paid
  period_paid : IsinArg → ℤ → ℤ → ℤ → ManagerEvent
  -- ISIN, payment count, principal paid, coupon paid, unsold units burned
  bond_matured : IsinArg → ℤ → ℤ → ℤ → ℤ → ManagerEvent
  -- ISIN, total
  bond_issuance_complete : Text → ℤ → ManagerEvent
  -- ISIN, holder, value, amount in WNOK
  bond_redeemed : IsinArg → Text → ℤ → ℤ → ManagerEvent
  -- ISIN, bond address, maturity duration in seconds
  bond_created : Text → Option Text → ℤ → ManagerEvent
  bond_disabled : Text → ManagerEvent
  other_manager_event : ManagerEvent

-- Events of the BondAuction contract.
pub data AuctionEvent : Type 0 where
  -- auction, ISIN, admin, end, offering, public key, type
  auction_created : Text → Text → Text → ℤ → ℤ → Text → Option ℕ → AuctionEvent
  -- auction, index, bidder, ciphertext, plaintext hash
  bid_submitted : Text → ℕ → Text → Text → Text → AuctionEvent
  -- auction, bidder, plaintext hash
  bid_cancelled : Text → Text → Text → AuctionEvent
  auction_finalized : Text → AuctionEvent
  other_auction_event : AuctionEvent

-- Events of the BondToken contract.
pub data TokenEvent : Type 0 where
  -- partition, from, to, value
  transfer_by_partition : Text → Text → Text → ℤ → TokenEvent
  isin_issued : Text → ℤ → TokenEvent
  -- ISIN, coupon duration, coupon yield
  isin_enabled : Text → ℤ → ℤ → TokenEvent
  isin_extended isin_reduced : Text → ℤ → TokenEvent
  isin_disabled : Text → TokenEvent
  -- any other event, with its argument `isin` if it has one
  other_token_event : Option Text → TokenEvent

pub record Log (E : Type 0) : Type 0 where
  pub block : ℕ
  pub log_index : ℕ
  pub tx_hash : Text
  pub event : E

-- The logs of the three contracts in a range of blocks, decoded.
pub record Batch : Type 0 where
  pub manager : List (Log ManagerEvent)
  pub token : List (Log TokenEvent)
  pub auction : List (Log AuctionEvent)
