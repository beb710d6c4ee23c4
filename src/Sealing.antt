-- ===== src/Sealing.antt =====
-- services/nb-bond-api/src/: encryption.ts, bid.ts, bidder-bid.ts, keys.ts and the schema of
-- contracts/bids.ts: the sealed bids.
pub mod Bid
pub mod BidderBid
pub mod Bytes
pub mod Encryption
pub mod Envelope
pub mod Schema
