-- ===== src/Sealing/BidderBid/Submit.antt =====
-- bidder-bid.ts: submitting a bid for a bidder, and which auctions take it.
use cbdc_tokenization_sandbo.Prelude.{
  ==_iff, Bool-cases, List, Option, Option-cases, Result, Result-cases, Text, [], ap, ap₂, arith,
  codes, err, get_or, if◌then◌else◌, inl, inr, leb, length, ltb, none, ok, refl, some, text_eq,
  text_eq_iff, ℕ, ◌<◌, ◌==◌, ◌>>=◌, ◌∙◌, ◌∷◌, ◌≡◌, ◌⊎◌,
}
use cbdc_tokenization_sandbo.Sealing.Encryption.{GeneratedKeypair, Packages}
use cbdc_tokenization_sandbo.Sealing.Bid.{get_sealing_keypair}
use cbdc_tokenization_sandbo.Sealing.BidderBid.{
  AuctionMetadata, BidOutcome, BidRandom, BidReceipt, BidderKeys, BondAuction, BuiltSealedBid,
  SubmitImpersonatedBidResult, Wallets, accepted, bid_of_receipt, build_sealed_bid, open_auction,
  outcome_of, parse_bid_index_from_receipt, refused,
}

abbrev pub and_then : {A B : Type 0} → BidOutcome A → (A → BidOutcome B) → BidOutcome B
and_then (refused e) next = refused e
and_then (accepted a) next = next a

-- `metadata.auctionPubKey || getSealingKeypair().publicKey`
unfoldable pub sealing_pub_key : Option GeneratedKeypair → AuctionMetadata → Result Text
unfolding get_sealing_keypair
sealing_pub_key keypair metadata =
    if ltb 0 (length metadata.auction_pub_key)
    then ok metadata.auction_pub_key
    else (do pair ← get_sealing_keypair keypair; ok pair.public_key)

module _ {Field Log : Type 0} (packages : Packages Field) (wallets : Wallets) where
  -- What follows the checks.
  unfoldable pub send_bid :
      BondAuction Log
      → Option GeneratedKeypair
      → BidRandom
      → ℕ
      → BidderKeys
      → Text
      → Text
      → Text
      → Text
      → AuctionMetadata
      → BidOutcome SubmitImpersonatedBidResult
  unfolding sealing_pub_key build_sealed_bid bid_of_receipt
  send_bid auction keypair random bidder_nonce bidder_keys auction_id units_text rate_text address
        metadata =
      outcome_of auction.chain_id λ chain_id.
        outcome_of (sealing_pub_key keypair metadata) λ auctioneer_pub_key.
          outcome_of
            (build_sealed_bid packages wallets random bidder_nonce (record {
              bidder = bidder_keys;
              auction_id = auction_id;
              isin = metadata.isin;
              units = units_text;
              rate = rate_text;
              auctioneer_pub_key = auctioneer_pub_key;
              chain_id = chain_id;
              verifying_contract = address;
            }))
            λ built.
              outcome_of (auction.submit_bid auction_id built.ciphertext built.plaintext_hash)
                λ sent. bid_of_receipt auction bidder_keys.address built sent

  unfoldable pub submit_impersonated_bid :
      BondAuction Log
      → Option GeneratedKeypair
      → BidRandom
      → ℕ
      → ℕ
      → BidderKeys
      → Text
      → Text
      → Text
      → BidOutcome SubmitImpersonatedBidResult
  unfolding open_auction send_bid
  submit_impersonated_bid auction keypair random bidder_nonce now_seconds bidder_keys auction_id
        units_text rate_text =
      outcome_of auction.address λ address. and_then (open_auction auction now_seconds auction_id) (
        send_bid auction keypair random bidder_nonce bidder_keys auction_id units_text rate_text
          address)

-- Whatever is accepted satisfies `P`.
abbrev pub Accepts : {A : Type 0} → (A → Type 0) → BidOutcome A → Type 0
Accepts P (refused e) = Unit
Accepts P (accepted a) = P a

outcome_of-Accepts :
    {A B : Type 0} (P : B → Type 0) (call : Result A) (next : A → BidOutcome B)
    → ((a : A) → call ≡ ok a → Accepts P (next a))
    → Accepts P (outcome_of call next)
outcome_of-Accepts P (ok a) next h = h a refl
outcome_of-Accepts P (err e) next h = tt

and_then-Accepts :
    {A B : Type 0} (Q : A → Type 0) (P : B → Type 0) (outcome : BidOutcome A)
    (next : A → BidOutcome B)
    → Accepts Q outcome
    → ((a : A) → Q a → Accepts P (next a))
    → Accepts P (and_then outcome next)
and_then-Accepts Q P (refused e) next q h = tt
and_then-Accepts Q P (accepted a) next q h = h a q

module _ {Log : Type 0} (auction : BondAuction Log) where
  -- The auction is known, in its bidding phase, and ends later than now.
  abbrev pub TakesBids : ℕ → Text → AuctionMetadata → Type 0
  TakesBids now_seconds auction_id metadata =
      (auction.get_auction auction_id ≡ ok metadata)
      × (auction.get_auction_status auction_id ≡ ok 1)
      × (0 < length metadata.isin)
      × (now_seconds < get_or metadata.end 0)

  -- One of the logs is the contract's event of a bid with this index.
  unfoldable pub HasBidEvent : List Log → ℕ → Type 0
  HasBidEvent [] bid_index = ⊥
  HasBidEvent (log ∷ logs) bid_index =
      (auction.parse_log log ≡ ok (some (codes "BidSubmitted", some bid_index)))
      ⊎ HasBidEvent logs bid_index

  -- What is at hand for a bid that was taken: the bid was built for the ISIN of the auction, the
  -- transaction of its ciphertext and hash was mined, and its index is in an event of the receipt.
  module _ {Field : Type 0} (packages : Packages Field) (wallets : Wallets) (random : BidRandom)
      (bidder_nonce now_seconds : ℕ) (bidder_keys : BidderKeys)
      (auction_id units_text rate_text : Text) where
    abbrev pub IsSubmitted : SubmitImpersonatedBidResult → Type 0
    IsSubmitted result =
        (metadata : AuctionMetadata) × (chain_id : ℕ) × (address auctioneer_pub_key : Text)
        × (built : BuiltSealedBid) × (receipt : BidReceipt Log) × TakesBids now_seconds auction_id
            metadata
        × (auction.address ≡ ok address)
        × (build_sealed_bid packages wallets random bidder_nonce (record {
          bidder = bidder_keys;
          auction_id = auction_id;
          isin = metadata.isin;
          units = units_text;
          rate = rate_text;
          auctioneer_pub_key = auctioneer_pub_key;
          chain_id = chain_id;
          verifying_contract = address;
        })
            ≡ ok built)
        × (auction.submit_bid auction_id built.ciphertext built.plaintext_hash
            ≡ ok (result.tx_hash, some receipt))
        × HasBidEvent receipt.logs result.bid_index
        × (result.bidder ≡ bidder_keys.address)
        × (result.ciphertext ≡ built.ciphertext)
        × (result.plaintext_hash ≡ built.plaintext_hash)

  open_auction-TakesBids :
      (now_seconds : ℕ) (auction_id : Text)
      → Accepts (TakesBids now_seconds auction_id) (open_auction auction now_seconds auction_id)
  unfolding open_auction
  open_auction-TakesBids now_seconds auction_id =
      outcome_of-Accepts (TakesBids now_seconds auction_id) (auction.get_auction auction_id) _
        λ metadata has_metadata.
          outcome_of-Accepts (TakesBids now_seconds auction_id)
            (auction.get_auction_status auction_id) _
            λ status has_status. elim (Bool-cases (length metadata.isin == 0)) [
              | inl unknown ↦ rw (unknown) tt
              | inr known ↦ elim (Bool-cases (status == 1)) [
                | inr other_status ↦ rw (known, other_status) tt
                | inl bidding ↦ elim (Bool-cases (leb (get_or metadata.end 0) now_seconds)) [
                  | inl over ↦ rw (known, bidding, over) tt
                  | inr running ↦
                      rw (known, bidding, running)
                        (
                          has_metadata,
                          has_status ∙ ap ok ((==_iff status 1).0 bidding),
                          ground arith,
                          ground arith,
                        )
                ]
              ]
            ]

  parse_bid_index-HasBidEvent :
      (logs : List Log) (bid_index : ℕ)
      → parse_bid_index_from_receipt auction logs ≡ some bid_index
      → HasBidEvent logs bid_index
  unfolding parse_bid_index_from_receipt HasBidEvent
  parse_bid_index-HasBidEvent [] bid_index e = cc
  parse_bid_index-HasBidEvent (log ∷ logs) bid_index e =
      let later = parse_bid_index-HasBidEvent logs bid_index in
      elim (Result-cases (auction.parse_log log)) [
        | inl (_, fails) ↦ inr (later (rw (fails) at e))
        | inr (parsed, parses) ↦ elim (Option-cases parsed) [
          | inl nothing ↦ inr (later (rw (parses, nothing) at e))
          | inr ((name, index), is_event) ↦
              elim (Bool-cases (text_eq name (codes "BidSubmitted"))) [
                | inl submitted ↦
                    let has_index : index ≡ some bid_index =
                      rw (parses, is_event, submitted) at e in
                    inl (
                      parses
                      ∙ ap ok (
                          is_event
                          ∙ ap₂ (λ (n : Text) (i : Option ℕ). some (n, i))
                              ((text_eq_iff name (codes "BidSubmitted")).0 submitted) has_index))
                | inr different ↦ inr (later (rw (parses, is_event, different) at e))
              ]
        ]
      ]

  bid_of_receipt-Accepts :
      (P : SubmitImpersonatedBidResult → Type 0) (bidder_address : Text) (built : BuiltSealedBid)
      (tx_hash : Text) (receipt : Option (BidReceipt Log))
      → ((mined : BidReceipt Log) (bid_index : ℕ)
          → receipt ≡ some mined
          → HasBidEvent mined.logs bid_index
          → P (record {
            bidder = bidder_address;
            ciphertext = built.ciphertext;
            plaintext_hash = built.plaintext_hash;
            bid_index = bid_index;
            tx_hash = tx_hash;
            block_number = mined.block_number;
          }))
      → Accepts P (bid_of_receipt auction bidder_address built (tx_hash, receipt))
  unfolding bid_of_receipt
  bid_of_receipt-Accepts P bidder_address built tx_hash none h = tt
  bid_of_receipt-Accepts P bidder_address built tx_hash (some mined) h =
      elim (Option-cases (parse_bid_index_from_receipt auction mined.logs)) [
        | inl missing ↦ rw (missing) tt
        | inr (bid_index, found) ↦
            rw (found)
              (h mined bid_index refl (parse_bid_index-HasBidEvent mined.logs bid_index found))
      ]

-- A bid that submitImpersonatedBid reports as taken is for an auction that is known, in its bidding
-- phase and ends later than now. It was built for the ISIN of that auction; the transaction of its
-- ciphertext and its hash was mined; and its index is in an event BidSubmitted of the receipt.
pub submit_impersonated_bid-IsSubmitted :
    {Field Log : Type 0} (packages : Packages Field) (wallets : Wallets) (auction : BondAuction Log)
    (keypair : Option GeneratedKeypair) (random : BidRandom) (bidder_nonce now_seconds : ℕ)
    (bidder_keys : BidderKeys) (auction_id units_text rate_text : Text)
    → Accepts
        (IsSubmitted auction packages wallets random bidder_nonce now_seconds bidder_keys auction_id
          units_text rate_text)
        (submit_impersonated_bid packages wallets auction keypair random bidder_nonce now_seconds
          bidder_keys auction_id units_text rate_text)
unfolding submit_impersonated_bid send_bid
submit_impersonated_bid-IsSubmitted packages wallets auction keypair random bidder_nonce now_seconds
      bidder_keys auction_id units_text rate_text =
    let P =
      IsSubmitted auction packages wallets random bidder_nonce now_seconds bidder_keys auction_id
        units_text rate_text in
    outcome_of-Accepts P auction.address _ λ address has_address.
      and_then-Accepts (TakesBids auction now_seconds auction_id) P
        (open_auction auction now_seconds auction_id) _
        (open_auction-TakesBids auction now_seconds auction_id)
        λ metadata takes_bids. outcome_of-Accepts P auction.chain_id _ λ chain_id _.
          outcome_of-Accepts P (sealing_pub_key keypair metadata) _ λ auctioneer_pub_key _.
            outcome_of-Accepts P
              (build_sealed_bid packages wallets random bidder_nonce (record {
                bidder = bidder_keys;
                auction_id = auction_id;
                isin = metadata.isin;
                units = units_text;
                rate = rate_text;
                auctioneer_pub_key = auctioneer_pub_key;
                chain_id = chain_id;
                verifying_contract = address;
              }))
              _
              λ built builds.
                outcome_of-Accepts P
                  (auction.submit_bid auction_id built.ciphertext built.plaintext_hash) _
                  λ sent sends.
                    bid_of_receipt-Accepts auction P bidder_keys.address built sent.0 sent.1
                      λ mined bid_index is_mined has_event. (
                        metadata,
                        chain_id,
                        address,
                        auctioneer_pub_key,
                        built,
                        mined,
                        takes_bids,
                        has_address,
                        builds,
                        sends ∙ ap (λ receipt. ok (sent.0, receipt)) is_mined,
                        has_event,
                        refl,
                        refl,
                        refl,
                      )
