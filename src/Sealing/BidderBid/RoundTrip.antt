-- ===== src/Sealing/BidderBid/RoundTrip.antt =====
-- bidder-bid.ts and bid.ts: the service unseals the bids that it builds.
use cbdc_tokenization_sandbo.Prelude.{
  &&-true, All, Option, Text, [], ap₂, arith, false, length, none, ok, pos, refl, some, text_eq,
  text_eq_iff, text_eq_refl, to_lower_case, true, ℕ, ◌<◌, ◌==◌, ◌∙◌, ◌∷◌, ◌≡◌,
}
use cbdc_tokenization_sandbo.Allocation.{BidPlaintext, Role, UnsealedBid}
use cbdc_tokenization_sandbo.Sealing.Encryption.{
  EncryptBidResult, GeneratedKeypair, Json, Packages, decrypt_bid, document_of, encrypt_bid,
  fields_of, hash_bid_plaintext, without,
}
use cbdc_tokenization_sandbo.Sealing.Encryption.Laws.{
  IsDocumented, IsKeypair, IsSealRandom, IsSerialised, read_as,
}
use cbdc_tokenization_sandbo.Sealing.Schema.{is_bid_plaintext, is_hex_string}
use cbdc_tokenization_sandbo.Sealing.Bid.{
  SealedBid, accept_bid, check_bid, get_sealing_keypair, safe_parse, unseal_bid,
}
use cbdc_tokenization_sandbo.Sealing.Bid.Laws.{SameText}
use cbdc_tokenization_sandbo.Sealing.BidderBid.{
  BidRandom, BuildSealedBidInput, BuiltSealedBid, Wallets, build_sealed_bid, sign_bid,
  staged_plaintext,
}
use cbdc_tokenization_sandbo.Parsing.{print_bigint}
use cbdc_tokenization_sandbo.Sealing.Bytes.{Bytes, IsByte, to_prefixed_hex}
use cbdc_tokenization_sandbo.Sealing.Encryption.RoundTrip.{decrypt_bid-encrypt_bid}

SameText-true : (a b : Text) → SameText a b → text_eq (to_lower_case a) (to_lower_case b) ≡ true
SameText-true a b same = (text_eq_iff (to_lower_case a) (to_lower_case b)).1 same

module _ {Field : Type 0} (packages : Packages Field)
    (object_of : Json Field → Option BidPlaintext) where
  -- What `unsealBid` returns of a bid that the auctioneer reads.
  abbrev pub unsealed_as : SealedBid → ℕ → BidPlaintext → EncryptBidResult → UnsealedBid
  unsealed_as bid index plaintext sealed = record {
    bidder = bid.bidder;
    ciphertext = bid.ciphertext;
    plaintext_hash = sealed.plaintext_hash;
    plaintext = plaintext;
    ciphertext_hash = sealed.ciphertext_hash;
    bid_index = index;
    used_wrap = Role.auctioneer;
  }

  accept_bid-read :
      (isin : Text) (bid : SealedBid) (index : ℕ) (plaintext : BidPlaintext)
      (sealed : EncryptBidResult)
      → object_of (document_of packages plaintext) ≡ some plaintext
      → is_bid_plaintext plaintext ≡ true
      → plaintext.isin ≡ isin
      → SameText plaintext.bidder bid.bidder
      → 0 < length plaintext.bidder_sig
      → SameText sealed.plaintext_hash bid.plaintext_hash
      → accept_bid packages object_of isin bid index
          (read_as packages plaintext sealed Role.auctioneer)
        ≡ ok (unsealed_as bid index plaintext sealed)
  unfolding accept_bid check_bid safe_parse
  accept_bid-read isin bid index plaintext sealed is_object valid same_isin same_bidder signed
        same_hash =
      let is_signed : (length plaintext.bidder_sig == 0) ≡ false = ground arith in
      rw
        (
          is_object,
          valid,
          SameText-true sealed.plaintext_hash bid.plaintext_hash same_hash,
          same_isin,
          text_eq_refl isin,
          SameText-true plaintext.bidder bid.bidder same_bidder,
          is_signed,
        )
        refl

is_hex_string-signed : (t : Text) → is_hex_string t ≡ true → 0 < length t
unfolding is_hex_string
is_hex_string-signed [] e = absurd cc
is_hex_string-signed (c ∷ []) e = absurd cc
is_hex_string-signed (c ∷ d ∷ t) e = omega arith

is_bid_plaintext-signed :
    (plaintext : BidPlaintext) → is_bid_plaintext plaintext ≡ true → 0 < length plaintext.bidder_sig
unfolding is_bid_plaintext
is_bid_plaintext-signed plaintext valid =
    let (_, others) = &&-true _ _ valid in
    let (_, sig) = &&-true _ (is_hex_string plaintext.bidder_sig) others in
    is_hex_string-signed plaintext.bidder_sig sig

-- The bid of an input, signed.
unfoldable pub signed_plaintext : BidRandom → BuildSealedBidInput → Text → ℕ → Text → BidPlaintext
unfolding staged_plaintext
signed_plaintext random input address bidder_nonce signature =
    record (staged_plaintext random input address bidder_nonce) { bidder_sig = signature }

module _ {Field : Type 0} (packages : Packages Field) (object_of : Json Field → Option BidPlaintext)
    (wallets : Wallets) where
  -- The address is checksummed and the hash of the bid, as staged, is signed; the bid, signed, passes
  -- the schema, and its JSON reads back as the document it was made of and as its eight texts.
  abbrev pub IsSigned : BidRandom → BuildSealedBidInput → ℕ → Text → Text → Text → Type 0
  IsSigned random input bidder_nonce address hash signature =
      let final = signed_plaintext random input address bidder_nonce signature in
      (wallets.get_address input.bidder.address ≡ ok address)
      × (hash_bid_plaintext packages
            (document_of packages (staged_plaintext random input address bidder_nonce))
          ≡ ok hash)
      × (sign_bid packages wallets input address bidder_nonce hash ≡ ok signature)
      × All IsByte (packages.stringify (fields_of packages.text_field final))
      × (packages.parse_json (packages.stringify (fields_of packages.text_field final))
          ≡ ok (document_of packages final))
      × (object_of (document_of packages final) ≡ some final)
      × (is_bid_plaintext final ≡ true)

  -- The signature does not change the hash.
  hash_bid_plaintext-signed :
      (random : BidRandom) (input : BuildSealedBidInput) (bidder_nonce : ℕ)
      (address signature : Text)
      → hash_bid_plaintext packages
          (document_of packages (signed_plaintext random input address bidder_nonce signature))
        ≡ hash_bid_plaintext packages
            (document_of packages (staged_plaintext random input address bidder_nonce))
  unfolding hash_bid_plaintext document_of fields_of without text_eq signed_plaintext
  hash_bid_plaintext-signed random input bidder_nonce address signature = refl

  abbrev pub built_as : BidPlaintext → ℕ → EncryptBidResult → BuiltSealedBid
  built_as final bidder_nonce sealed = record {
    ciphertext = sealed.ciphertext_hex;
    plaintext_hash = sealed.plaintext_hash;
    ciphertext_hash = sealed.ciphertext_hash;
    bidder_nonce = print_bigint (pos bidder_nonce);
    plaintext = final;
  }

  build_sealed_bid-signed :
      (random : BidRandom) (input : BuildSealedBidInput) (bidder_nonce : ℕ)
      (address hash signature : Text) (sealed : EncryptBidResult)
      → let final = signed_plaintext random input address bidder_nonce signature in
        IsSigned random input bidder_nonce address hash signature
        → encrypt_bid packages random.sealing (record {
          plaintext = final;
          auctioneer_pub_key = input.auctioneer_pub_key;
          bidder_pub_key = input.bidder.public_key;
          version = none;
        })
          ≡ ok sealed
        → build_sealed_bid packages wallets random bidder_nonce input
          ≡ ok (built_as final bidder_nonce sealed)
  unfolding build_sealed_bid signed_plaintext
  build_sealed_bid-signed random input bidder_nonce address hash signature sealed
        (addressed, hashed, signs, _, _, _, _) encrypts =
      rw (addressed, hashed, signs, encrypts) refl

  isin_of_signed :
      (random : BidRandom) (input : BuildSealedBidInput) (bidder_nonce : ℕ)
      (address signature : Text)
      → (signed_plaintext random input address bidder_nonce signature).isin ≡ input.isin
  unfolding signed_plaintext staged_plaintext
  isin_of_signed random input bidder_nonce address signature = refl

  bidder_of_signed :
      (random : BidRandom) (input : BuildSealedBidInput) (bidder_nonce : ℕ)
      (address signature : Text)
      → (signed_plaintext random input address bidder_nonce signature).bidder ≡ address
  unfolding signed_plaintext staged_plaintext
  bidder_of_signed random input bidder_nonce address signature = refl

  unseal_bid-opened :
      (keypair : GeneratedKeypair) (isin : Text) (bid : SealedBid) (final : BidPlaintext)
      (sealed : EncryptBidResult)
      → decrypt_bid packages bid.ciphertext keypair.private_key (some Role.auctioneer)
        ≡ ok (read_as packages final sealed Role.auctioneer)
      → accept_bid packages object_of isin bid 0 (read_as packages final sealed Role.auctioneer)
        ≡ ok (unsealed_as packages object_of bid 0 final sealed)
      → unseal_bid packages object_of (some keypair) isin bid (some 0)
        ≡ ok (unsealed_as packages object_of bid 0 final sealed)
  unfolding unseal_bid get_sealing_keypair
  unseal_bid-opened keypair isin bid final sealed opens accepts = rw (opens) accepts

  -- With documented libraries and the key pairs of the auctioneer and of the bidder, a bid that can
  -- be signed, whose signed plaintext passes the schema of bids and is read back from its JSON, is
  -- built; and if the contract holds its ciphertext and its hash under the bidder's address, in any case
  -- of letters, the auctioneer unseals it: the plaintext, both hashes, by the auctioneer's wrap.
  pub unseal_bid-build_sealed_bid :
      IsDocumented packages
      → (random : BidRandom) (input : BuildSealedBidInput) (bidder_nonce : ℕ)
        (address hash signature on_chain : Text) (keypair : GeneratedKeypair)
        (auctioneer_priv auctioneer_key bidder_priv bidder_key : Bytes)
      → IsSealRandom packages random.sealing
      → IsKeypair packages auctioneer_priv auctioneer_key
      → IsKeypair packages bidder_priv bidder_key
      → keypair.private_key ≡ to_prefixed_hex auctioneer_priv
      → input.auctioneer_pub_key ≡ to_prefixed_hex auctioneer_key
      → input.bidder.public_key ≡ to_prefixed_hex bidder_key
      → IsSigned random input bidder_nonce address hash signature
      → SameText address on_chain
      → (built : BuiltSealedBid) × (unsealed : UnsealedBid) × (build_sealed_bid packages wallets
            random bidder_nonce input
          ≡ ok built)
        × (unseal_bid packages object_of
              (some keypair)
              input.isin
              (record {
                bidder = on_chain;
                ciphertext = built.ciphertext;
                plaintext_hash = built.plaintext_hash;
              })
              (some 0)
            ≡ ok unsealed)
        × (unsealed.plaintext ≡ built.plaintext)
        × (unsealed.plaintext_hash ≡ built.plaintext_hash)
        × (unsealed.ciphertext_hash ≡ built.ciphertext_hash)
        × (unsealed.used_wrap ≡ Role.auctioneer)
  unseal_bid-build_sealed_bid laws random input bidder_nonce address hash signature on_chain keypair
        auctioneer_priv auctioneer_key bidder_priv bidder_key seal_random keypair_a keypair_b
        private_hex key_a key_b signed same_address =
      let (_, hashed, _, all_bytes, read_back, is_object, valid) = signed in
      let final = signed_plaintext random input address bidder_nonce signature in
      let serialised : IsSerialised packages final hash = (
        all_bytes,
        read_back,
        hash_bid_plaintext-signed random input bidder_nonce address signature ∙ hashed,
      ) in
      let (sealed, encrypts, same_hash, opens, _) =
        decrypt_bid-encrypt_bid packages laws random.sealing final none hash auctioneer_priv
          auctioneer_key bidder_priv bidder_key (omega arith) seal_random keypair_a keypair_b
          serialised in
      let bid : SealedBid = record {
        bidder = on_chain;
        ciphertext = sealed.ciphertext_hex;
        plaintext_hash = sealed.plaintext_hash;
      } in
      (
        built_as final bidder_nonce sealed,
        unsealed_as packages object_of bid 0 final sealed,
        build_sealed_bid-signed random input bidder_nonce address hash signature sealed signed (
            ap₂
              (λ (a : Text) (b : Text). encrypt_bid packages random.sealing (record {
                plaintext = final;
                auctioneer_pub_key = a;
                bidder_pub_key = b;
                version = none;
              }))
              key_a key_b
            ∙ encrypts),
        unseal_bid-opened keypair input.isin bid final sealed (rw (private_hex) opens) (
            accept_bid-read packages object_of input.isin bid 0 final sealed is_object valid
              (isin_of_signed random input bidder_nonce address signature)
              (rw (bidder_of_signed random input bidder_nonce address signature) same_address)
              (is_bid_plaintext-signed final valid) refl),
        refl,
        refl,
        refl,
        refl,
      )
