-- ===== src/Examples/Bids.antt =====
-- Sealed bids from the key to the auction, at one input each.
use cbdc_tokenization_sandbo.Prelude.{
  Option, Text, [], arith, codes, if◌then◌else◌, none, ok, refl, some, text_eq, to_lower_case, ℕ,
  ◌*◌, ◌+◌, ◌∷◌, ◌≡◌,
}
use cbdc_tokenization_sandbo.Examples.Sealing.{
  all-IsByte, bid_example, bid_example-IsDocumented, copies, key_example,
}
use cbdc_tokenization_sandbo.Allocation.{BidPlaintext, Role, UnsealedBid}
use cbdc_tokenization_sandbo.Sealing.Bytes.{
  hex_value, is_hex, normalize_compressed_pub_key, to_prefixed_hex,
}
use cbdc_tokenization_sandbo.Sealing.Encryption.{
  EncryptBidResult, GeneratedKeypair, Json, Packages, decrypt_bid, document_of, encrypt_bid,
  fields_of, hash_bid_plaintext, json_object,
}
use cbdc_tokenization_sandbo.Sealing.Encryption.Laws.{
  IsKeypair, IsSealRandom, IsSerialised, read_as,
}
use cbdc_tokenization_sandbo.Sealing.BidderBid.{
  AuctionMetadata, BidOutcome, BidRandom, BondAuction, BuildSealedBidInput, BuiltSealedBid,
  SubmitImpersonatedBidResult, Wallets, accepted, build_sealed_bid, open_auction, refused, sign_bid,
  staged_plaintext,
}
use cbdc_tokenization_sandbo.Sealing.BidderBid.RoundTrip.{
  IsSigned, signed_plaintext, unseal_bid-build_sealed_bid,
}
use cbdc_tokenization_sandbo.Sealing.Schema.{
  is_bid_plaintext, is_bigint_string, is_hex_of_length, is_hex_string,
}
use cbdc_tokenization_sandbo.Sealing.BidderBid.Nonces.{
  Increases, bidder_nonces, bidder_nonces-Increases,
}
use cbdc_tokenization_sandbo.Sealing.BidderBid.Submit.{
  Accepts, IsSubmitted, send_bid, submit_impersonated_bid, submit_impersonated_bid-IsSubmitted,
}
use cbdc_tokenization_sandbo.Parsing.{print_bigint}
use cbdc_tokenization_sandbo.Sealing.Bid.{SealedBid, unseal_bid}
use cbdc_tokenization_sandbo.Sealing.Encryption.RoundTrip.{decrypt_bid-encrypt_bid}
use cbdc_tokenization_sandbo.Sealing.Bid.Laws.{IsBoundTo, unseal_bid-IsBoundTo}

abbrev wallets_example : Wallets
wallets_example = record {
  get_address = λ address. ok address;
  new_wallet = λ private_key. ok (λ domain intent. ok (codes "0x5151"));
}

abbrev random_example : BidRandom
random_example = record {
  nonce = copies 12 1;
  salt = copies 8 2;
  sealing = record {
    sym_key = copies 32 3;
    sym_nonce = copies 12 4;
    for_auctioneer = record { ephemeral_priv = copies 32 5; nonce = copies 12 6 };
    for_bidder = record { ephemeral_priv = copies 32 7; nonce = copies 12 8 };
  };
}

abbrev address_example : Text
address_example = codes "0x1234567890abcdef1234567890abcdef12345678"

abbrev input_example : BuildSealedBidInput
input_example = record {
  bidder = record {
    address = address_example;
    private_key = codes "0x07";
    public_key = to_prefixed_hex key_example;
  };
  auction_id = codes "0x01";
  isin = codes "NO001";
  units = codes "10";
  rate = codes "325";
  auctioneer_pub_key = to_prefixed_hex key_example;
  chain_id = 2018;
  verifying_contract = codes "0x02";
}

plaintext_example : BidPlaintext
plaintext_example =
    signed_plaintext random_example input_example address_example 1700000000001 (codes "0x5151")

document_example : Json Text
document_example = json_object (fields_of (λ text. text) plaintext_example)

packages_example : Packages Text
packages_example = bid_example document_example

-- The eight texts of a document, in their order.
abbrev object_example : Json Text → Option BidPlaintext
object_example
      (json_object ((_, a) ∷ (_, b) ∷ (_, c) ∷ (_, d) ∷ (_, e) ∷ (_, f) ∷ (_, g) ∷ (_, h) ∷ [])) =
    some (record {
      isin = a;
      bidder = b;
      nonce = c;
      rate = d;
      units = e;
      salt = f;
      bidder_nonce = g;
      bidder_sig = h;
    })
object_example _ = none

random_example-IsSealRandom : IsSealRandom packages_example random_example.sealing
unfolding packages_example document_example
random_example-IsSealRandom = (
  refl,
  all-IsByte (copies 32 3) refl,
  (refl, all-IsByte (copies 12 4) refl),
  ((refl, all-IsByte (copies 12 6) refl), (key_example, refl)),
  ((refl, all-IsByte (copies 12 8) refl), (key_example, refl)),
)

IsKeypair-example : IsKeypair packages_example (copies 32 5) key_example
unfolding packages_example document_example
IsKeypair-example = (refl, refl, all-IsByte (copies 32 5) refl)

IsSerialised-example : IsSerialised packages_example plaintext_example (codes "0x7b7d")
unfolding packages_example document_example hash_bid_plaintext document_of to_prefixed_hex
IsSerialised-example = (all-IsByte (b'{' ∷ b'}' ∷ []) refl, refl, refl)

decrypt_bid-encrypt_bid_example :
    (sealed : EncryptBidResult) × (encrypt_bid packages_example random_example.sealing (record {
      plaintext = plaintext_example;
      auctioneer_pub_key = to_prefixed_hex key_example;
      bidder_pub_key = to_prefixed_hex key_example;
      version = none;
    })
      ≡ ok sealed)
    × (sealed.plaintext_hash ≡ codes "0x7b7d")
    × (decrypt_bid packages_example sealed.ciphertext_hex
          (to_prefixed_hex (copies 32 5))
          (some Role.auctioneer)
        ≡ ok (read_as packages_example plaintext_example sealed Role.auctioneer))
    × (decrypt_bid packages_example sealed.ciphertext_hex
          (to_prefixed_hex (copies 32 5))
          (some Role.bidder)
        ≡ ok (read_as packages_example plaintext_example sealed Role.bidder))
unfolding packages_example document_example
decrypt_bid-encrypt_bid_example =
    decrypt_bid-encrypt_bid packages_example (bid_example-IsDocumented document_example)
      random_example.sealing plaintext_example none (codes "0x7b7d") (copies 32 5) key_example
      (copies 32 5) key_example (omega arith) random_example-IsSealRandom IsKeypair-example
      IsKeypair-example IsSerialised-example

IsSigned-example :
    IsSigned packages_example object_example wallets_example random_example input_example
      1700000000001 address_example
      (codes "0x7b7d")
      (codes "0x5151")
unfolding packages_example document_example plaintext_example hash_bid_plaintext document_of
    fields_of to_prefixed_hex sign_bid is_bid_plaintext is_hex_of_length is_bigint_string
    is_hex_string signed_plaintext staged_plaintext is_hex hex_value print_bigint
IsSigned-example = (refl, refl, refl, IsSerialised-example.0, refl, refl, refl)

sealing_example : GeneratedKeypair
sealing_example = record {
  private_key = to_prefixed_hex (copies 32 5);
  public_key = to_prefixed_hex key_example;
}

-- The bid goes to the contract and back.
abbrev BidRun : Type 0
BidRun =
    (built : BuiltSealedBid) × (unsealed : UnsealedBid) × (build_sealed_bid packages_example
        wallets_example random_example 1700000000001 input_example
      ≡ ok built)
    × (unseal_bid packages_example object_example (some sealing_example) (codes "NO001")
          (record {
            bidder = codes "0x1234567890ABCDEF1234567890ABCDEF12345678";
            ciphertext = built.ciphertext;
            plaintext_hash = built.plaintext_hash;
          })
          (some 0)
        ≡ ok unsealed)
    × (unsealed.plaintext ≡ built.plaintext)
    × (unsealed.plaintext_hash ≡ built.plaintext_hash)
    × (unsealed.ciphertext_hash ≡ built.ciphertext_hash)
    × (unsealed.used_wrap ≡ Role.auctioneer)

bid_run : BidRun
unfolding packages_example document_example sealing_example to_lower_case
bid_run =
    unseal_bid-build_sealed_bid packages_example object_example wallets_example
      (bid_example-IsDocumented document_example) random_example input_example 1700000000001
      address_example (codes "0x7b7d") (codes "0x5151")
      (codes "0x1234567890ABCDEF1234567890ABCDEF12345678") sealing_example (copies 32 5) key_example
      (copies 32 5) key_example random_example-IsSealRandom IsKeypair-example IsKeypair-example refl
      refl refl IsSigned-example refl

on_chain_example : SealedBid
on_chain_example = record {
  bidder = codes "0x1234567890ABCDEF1234567890ABCDEF12345678";
  ciphertext = bid_run.0.ciphertext;
  plaintext_hash = bid_run.0.plaintext_hash;
}

unseal_bid-build_sealed_bid_example :
    (built : BuiltSealedBid) × (unsealed : UnsealedBid) × (build_sealed_bid packages_example
        wallets_example random_example 1700000000001 input_example
      ≡ ok built)
    × (unseal_bid packages_example object_example
          (some sealing_example)
          (codes "NO001")
          (record {
            bidder = codes "0x1234567890ABCDEF1234567890ABCDEF12345678";
            ciphertext = built.ciphertext;
            plaintext_hash = built.plaintext_hash;
          })
          (some 0)
        ≡ ok unsealed)
    × (unsealed.plaintext ≡ built.plaintext)
    × (unsealed.plaintext_hash ≡ built.plaintext_hash)
    × (unsealed.ciphertext_hash ≡ built.ciphertext_hash)
    × (unsealed.used_wrap ≡ Role.auctioneer)
unfolding packages_example document_example sealing_example to_lower_case
unseal_bid-build_sealed_bid_example =
    unseal_bid-build_sealed_bid packages_example object_example wallets_example
      (bid_example-IsDocumented document_example) random_example input_example 1700000000001
      address_example (codes "0x7b7d") (codes "0x5151")
      (codes "0x1234567890ABCDEF1234567890ABCDEF12345678") sealing_example (copies 32 5) key_example
      (copies 32 5) key_example random_example-IsSealRandom IsKeypair-example IsKeypair-example refl
      refl refl IsSigned-example refl

unseal_bid-IsBoundTo_example :
    IsBoundTo packages_example object_example (codes "NO001") on_chain_example bid_run.1
unfolding on_chain_example
unseal_bid-IsBoundTo_example =
    unseal_bid-IsBoundTo packages_example object_example (some sealing_example) (codes "NO001")
      on_chain_example (some 0) bid_run.1 bid_run.3

bidder_nonces-Increases_example : Increases (5 * 1000 + 0) (bidder_nonces 0 (5 ∷ 5 ∷ 6 ∷ []))
bidder_nonces-Increases_example =
    bidder_nonces-Increases 5 0 (5 ∷ 5 ∷ 6 ∷ []) (omega arith, (omega arith, (omega arith, tt)))

abbrev metadata_example : AuctionMetadata
metadata_example = record {
  isin = codes "NO001";
  end = some 100;
  auction_pub_key = to_prefixed_hex key_example;
}

abbrev auction_example : BondAuction Text
auction_example = record {
  address = ok (codes "0x02");
  get_auction = λ auction_id. ok metadata_example;
  get_auction_status = λ auction_id. ok 1;
  chain_id = ok 2018;
  submit_bid = λ auction_id ciphertext hash.
      ok (codes "0x03", some (record { logs = codes "a" ∷ codes "b" ∷ []; block_number = some 9 }));
  parse_log =
      λ log. ok (if text_eq log (codes "b") then some (codes "BidSubmitted", some 4) else none);
}

abbrev submitted : BidOutcome SubmitImpersonatedBidResult
submitted =
    submit_impersonated_bid packages_example wallets_example auction_example none random_example
      1700000000001 50 input_example.bidder (codes "0x01") (codes "10") (codes "325")

-- The bid is taken, with the index of the event.
taken_index : BidOutcome SubmitImpersonatedBidResult → Option ℕ
taken_index (accepted result) = some result.bid_index
taken_index (refused e) = none

submitted_run : taken_index submitted ≡ some 4
unfolding taken_index submit_impersonated_bid open_auction send_bid document_of packages_example
    normalize_compressed_pub_key text_eq
submitted_run = refl

submit_impersonated_bid-IsSubmitted_example :
    Accepts
      (IsSubmitted auction_example packages_example wallets_example random_example 1700000000001 50
        input_example.bidder
        (codes "0x01")
        (codes "10")
        (codes "325"))
      submitted
submit_impersonated_bid-IsSubmitted_example =
    submit_impersonated_bid-IsSubmitted packages_example wallets_example auction_example none
      random_example 1700000000001 50 input_example.bidder (codes "0x01") (codes "10") (codes "325")
