-- ===== src/Sealing/Bid.antt =====
-- bid.ts and keys.ts: the sealing key pair of the service, and what it accepts of a sealed bid. How a
-- document reads as an object of eight strings is the parameter `object_of`.
pub mod Laws
use cbdc_tokenization_sandbo.Prelude.{
  Error, Option, Result, Text, case_option, codes, drop, err, failure, get_or, if◌then◌else◌,
  length, ltb, none, not, ok, some, text_eq, throw_if, to_lower_case, ℕ, ◌++◌, ◌==◌, ◌>>=◌, ◌>>◌,
  ◌∷◌,
}
use cbdc_tokenization_sandbo.Allocation.{BidPlaintext, Role, UnsealedBid, auctioneer}
use cbdc_tokenization_sandbo.Sealing.Bytes.{
  Bytes, buffer_from_hex, strip0x, throw_error, to_prefixed_hex,
}
use cbdc_tokenization_sandbo.Sealing.Encryption.{
  DecryptBidResult, GeneratedKeypair, Json, Packages, decrypt_bid, generate_keypair,
}
use cbdc_tokenization_sandbo.Sealing.Schema.{is_bid_plaintext}

pub record SealedBid : Type 0 where
  pub bidder : Text
  pub ciphertext : Text
  pub plaintext_hash : Text

unfoldable pub normalize_sealed_bid : SealedBid → SealedBid
normalize_sealed_bid bid = record {
  bidder = bid.bidder;
  ciphertext = bid.ciphertext;
  plaintext_hash = bid.plaintext_hash;
}

pub record FormattedBid : Type 0 where
  pub bidder : Text
  pub rate : Text
  pub units : Text

unfoldable pub format_unsealed_bid : UnsealedBid → FormattedBid
format_unsealed_bid bid = record {
  bidder = bid.bidder;
  rate = bid.plaintext.rate;
  units = bid.plaintext.units;
}

-- `normalizeHex`
unfoldable pub normalize_hex : Text → Result Text
unfolding strip0x
normalize_hex value =
    let hex = strip0x value in
    if length hex == 64
    then ok (b'0' ∷ b'x' ∷ hex)
    else throw_error (codes "sealing private key must be 32 bytes hex")

abbrev pub not_initialised : Error
not_initialised = failure (codes "Sealing keypair not initialised")

-- The cached pair, or the error.
unfoldable pub get_sealing_keypair : Option GeneratedKeypair → Result GeneratedKeypair
get_sealing_keypair cached = case_option cached (err not_initialised) ok

-- `if (plaintextHash !== …) throw`: the message names the bidder.
abbrev pub reject : Text → Text → Error
reject message bidder_name = failure (message ++ bidder_name)

module _ {Field : Type 0} (packages : Packages Field) where
  -- The pair of the environment's key, or a random one; the first call decides.
  unfoldable pub init_sealing_keypair :
      Bytes → Option GeneratedKeypair → Option Text → Result GeneratedKeypair
  unfolding normalize_hex buffer_from_hex generate_keypair
  init_sealing_keypair random (some cached) env_private_key = ok cached
  init_sealing_keypair random none (some value) =
      if ltb 0 (length value)
      then (do
        priv ← normalize_hex value
        public_bytes ← packages.get_public_key (buffer_from_hex (drop 2 priv))
        ok (record { private_key = priv; public_key = to_prefixed_hex public_bytes }))
      else generate_keypair packages random
  init_sealing_keypair random none none = generate_keypair packages random

  -- The checks on the plaintext, in the order of the code.
  unfoldable pub check_bid :
      Text → SealedBid → ℕ → DecryptBidResult (Json Field) → BidPlaintext → Result UnsealedBid
  check_bid isin bid index result validated = do
    throw_if
        (not (text_eq (to_lower_case result.plaintext_hash) (to_lower_case bid.plaintext_hash)))
        (reject (codes "plaintextHash mismatch for bid ") bid.bidder)
    throw_if (not (text_eq validated.isin isin))
        (failure (codes "bid ISIN mismatch. expected " ++ isin ++ codes ", got " ++ validated.isin))
    throw_if (not (text_eq (to_lower_case validated.bidder) (to_lower_case bid.bidder)))
        (reject (codes "bidder mismatch for bid ") bid.bidder)
    throw_if (length validated.bidder_sig == 0)
        (reject (codes "missing bidderSig for bid ") bid.bidder)
    ok (record {
      bidder = bid.bidder;
      ciphertext = bid.ciphertext;
      plaintext_hash = result.plaintext_hash;
      plaintext = validated;
      ciphertext_hash = result.ciphertext_hash;
      bid_index = index;
      used_wrap = result.used_wrap;
    })

  module _ (object_of : Json Field → Option BidPlaintext) where
    -- `bidPlaintextSchema.safeParse`
    unfoldable pub safe_parse : Json Field → Option BidPlaintext
    unfolding is_bid_plaintext
    safe_parse document =
        case_option (object_of document) none
          (λ plaintext. if is_bid_plaintext plaintext then some plaintext else none)

    unfoldable pub accept_bid :
        Text → SealedBid → ℕ → DecryptBidResult (Json Field) → Result UnsealedBid
    unfolding safe_parse check_bid
    accept_bid isin bid index result =
        case_option (safe_parse result.plaintext)
          (err (reject (codes "invalid bid plaintext for ") bid.bidder))
          (check_bid isin bid index result)

    unfoldable pub unseal_bid :
        Option GeneratedKeypair → Text → SealedBid → Option ℕ → Result UnsealedBid
    unfolding accept_bid decrypt_bid get_sealing_keypair
    unseal_bid keypair isin bid index = do
      sealing ← get_sealing_keypair keypair
      result ← decrypt_bid packages bid.ciphertext sealing.private_key (some Role.auctioneer)
      accept_bid isin bid (get_or index 0) result
