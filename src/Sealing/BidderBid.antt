-- ===== src/Sealing/BidderBid.antt =====
-- bidder-bid.ts: a bid that the service makes with a bidder's key. Wallets and checksummed addresses
-- are the record `Wallets`; the calls of the auction contract are the record `BondAuction`.
pub mod Nonces
pub mod RoundTrip
pub mod Submit
use cbdc_tokenization_sandbo.Prelude.{
  Error, List, Option, Result, Text, [], case_option, case_result, codes, get_or, if◌then◌else◌,
  leb, length, none, not, ok, pos, text_eq, ℕ, ◌*◌, ◌+◌, ◌==◌, ◌>>=◌, ◌>>◌, ◌∷◌,
}
use cbdc_tokenization_sandbo.Allocation.{BidPlaintext}
use cbdc_tokenization_sandbo.Parsing.{print_bigint}
use cbdc_tokenization_sandbo.Sealing.Bytes.{Bytes, to_prefixed_hex}
use cbdc_tokenization_sandbo.Sealing.Encryption.{
  Packages, SealRandom, document_of, encrypt_bid, hash_bid_plaintext,
}
use cbdc_tokenization_sandbo.Ingestion.{Log}

-- `BID_INTENT_DOMAIN_NAME` and its version are in every domain.
pub record TypedDataDomain : Type 0 where
  pub name : Text
  pub version : Text
  pub chain_id : ℕ
  pub verifying_contract : Text

-- `BID_INTENT_TYPES`
pub record BidIntent : Type 0 where
  pub bidder : Text
  pub auction_id : Text
  pub plaintext_hash : Text
  pub bidder_nonce : ℕ

pub record Wallets : Type 0 where
  pub get_address : Text → Result Text
  -- `new Wallet(privateKey)`, and its `signTypedData`
  pub new_wallet : Text → Result (TypedDataDomain → BidIntent → Result Text)

-- The counter, and the nonce: `now` is in milliseconds.
unfoldable pub next_bidder_nonce : ℕ → ℕ → ℕ × ℕ
next_bidder_nonce now counter = (counter + 1, now * 1000 + (counter + 1))

pub record BidderKeys : Type 0 where
  pub address : Text
  pub private_key : Text
  pub public_key : Text

pub record BuildSealedBidInput : Type 0 where
  pub bidder : BidderKeys
  pub auction_id : Text
  pub isin : Text
  pub units : Text
  pub rate : Text
  pub auctioneer_pub_key : Text
  pub chain_id : ℕ
  pub verifying_contract : Text

pub record BuiltSealedBid : Type 0 where
  pub ciphertext : Text
  pub plaintext_hash : Text
  pub ciphertext_hash : Text
  pub bidder_nonce : Text
  pub plaintext : BidPlaintext

-- What a bid draws at random.
pub record BidRandom : Type 0 where
  pub nonce : Bytes
  pub salt : Bytes
  pub sealing : SealRandom

unfoldable pub bid_domain : ℕ → Text → TypedDataDomain
bid_domain chain_id verifying_contract = record {
  name = codes "BondAuctionBid";
  version = codes "1";
  chain_id = chain_id;
  verifying_contract = verifying_contract;
}

-- Before it is signed.
unfoldable pub staged_plaintext : BidRandom → BuildSealedBidInput → Text → ℕ → BidPlaintext
unfolding to_prefixed_hex print_bigint
staged_plaintext random input bidder_address bidder_nonce = record {
  isin = input.isin;
  bidder = bidder_address;
  nonce = to_prefixed_hex random.nonce;
  rate = input.rate;
  units = input.units;
  salt = to_prefixed_hex random.salt;
  bidder_nonce = print_bigint (pos bidder_nonce);
  bidder_sig = codes "0x";
}

module _ {Field : Type 0} (packages : Packages Field) (wallets : Wallets) where
  unfoldable pub sign_bid : BuildSealedBidInput → Text → ℕ → Text → Result Text
  unfolding bid_domain
  sign_bid input bidder_address bidder_nonce plaintext_hash = do
    sign_typed_data ← wallets.new_wallet input.bidder.private_key
    verifying_contract ← wallets.get_address input.verifying_contract
    sign_typed_data (bid_domain input.chain_id verifying_contract) (record {
      bidder = bidder_address;
      auction_id = input.auction_id;
      plaintext_hash = plaintext_hash;
      bidder_nonce = bidder_nonce;
    })

  unfoldable pub build_sealed_bid : BidRandom → ℕ → BuildSealedBidInput → Result BuiltSealedBid
  unfolding staged_plaintext sign_bid encrypt_bid hash_bid_plaintext
  build_sealed_bid random bidder_nonce input = do
    bidder_address ← wallets.get_address input.bidder.address
    let staged = staged_plaintext random input bidder_address bidder_nonce
    plaintext_hash ← hash_bid_plaintext packages (document_of packages staged)
    bidder_sig ← sign_bid input bidder_address bidder_nonce plaintext_hash
    let final_plaintext : BidPlaintext = record staged { bidder_sig = bidder_sig }
    wrapped ← encrypt_bid packages random.sealing (record {
      plaintext = final_plaintext;
      auctioneer_pub_key = input.auctioneer_pub_key;
      bidder_pub_key = input.bidder.public_key;
      version = none;
    })
    ok (record {
      ciphertext = wrapped.ciphertext_hex;
      plaintext_hash = wrapped.plaintext_hash;
      ciphertext_hash = wrapped.ciphertext_hash;
      bidder_nonce = print_bigint (pos bidder_nonce);
      plaintext = final_plaintext;
    })

pub record AuctionMetadata : Type 0 where
  pub isin : Text
  pub end : Option ℕ
  pub auction_pub_key : Text

-- A log: what `parseLog` makes of it, an error, nothing, or an event with its name and bid index.
pub record BidReceipt (Log : Type 0) : Type 0 where
  pub logs : List Log
  pub block_number : Option ℕ

pub record BondAuction (Log : Type 0) : Type 0 where
  pub address : Result Text
  pub get_auction : Text → Result AuctionMetadata
  pub get_auction_status : Text → Result ℕ
  pub chain_id : Result ℕ
  -- auction, ciphertext, hash of the plaintext: the hash of the transaction and its receipt
  pub submit_bid : Text → Text → Text → Result (Text × Option (BidReceipt Log))
  pub parse_log : Log → Result (Option (Text × Option ℕ))

pub data BidderBidError : Type 0 where
  auction_not_found auction_not_bidding bidding_window_closed : BidderBidError
  tx_failed event_not_found : BidderBidError
  other_error : Error → BidderBidError

pub data BidOutcome (B : Type 0) : Type 0 where
  refused : BidderBidError → BidOutcome B
  accepted : B → BidOutcome B

abbrev pub outcome_of : {A B : Type 0} → Result A → (A → BidOutcome B) → BidOutcome B
outcome_of call next = case_result call (λ e. refused (other_error e)) next

pub record SubmitImpersonatedBidResult : Type 0 where
  pub bidder : Text
  pub ciphertext : Text
  pub plaintext_hash : Text
  pub bid_index : ℕ
  pub tx_hash : Text
  pub block_number : Option ℕ

module _ {Log : Type 0} (auction : BondAuction Log) where
  -- The index in the first event of a bid; logs that do not parse are passed over.
  unfoldable pub parse_bid_index_from_receipt : List Log → Option ℕ
  parse_bid_index_from_receipt [] = none
  parse_bid_index_from_receipt (log ∷ logs) =
      let rest = parse_bid_index_from_receipt logs in
      case_result (auction.parse_log log) (λ _. rest)
        (λ parsed.
          case_option parsed rest
            (λ event. if text_eq event.0 (codes "BidSubmitted") then event.1 else rest))

  -- The checks before a bid is built: the metadata of an auction that takes bids now (seconds).
  unfoldable pub open_auction : ℕ → Text → BidOutcome AuctionMetadata
  open_auction now_seconds auction_id = outcome_of (auction.get_auction auction_id) λ metadata.
      outcome_of (auction.get_auction_status auction_id) λ status.
        if length metadata.isin == 0
        then refused auction_not_found
        else if not (status == 1)
        then refused auction_not_bidding
        else if leb (get_or metadata.end 0) now_seconds
        then refused bidding_window_closed
        else accepted metadata

  -- What is read from the transaction of a bid.
  unfoldable pub bid_of_receipt :
      Text
      → BuiltSealedBid
      → Text × Option (BidReceipt Log)
      → BidOutcome SubmitImpersonatedBidResult
  unfolding parse_bid_index_from_receipt
  bid_of_receipt bidder_address built (tx_hash, receipt) =
      case_option receipt (refused tx_failed) (λ mined.
        case_option (parse_bid_index_from_receipt mined.logs) (refused event_not_found)
          (λ bid_index. accepted (record {
            bidder = bidder_address;
            ciphertext = built.ciphertext;
            plaintext_hash = built.plaintext_hash;
            bid_index = bid_index;
            tx_hash = tx_hash;
            block_number = mined.block_number;
          })))
