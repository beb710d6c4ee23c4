-- ===== src/Sealing/Encryption/RoundTrip.antt =====
-- encryption.ts: what `encryptBid` seals, `decryptBid` opens for both recipients.
use cbdc_tokenization_sandbo.Prelude.{All-append, Option, Text, get_or, ok, refl, some, ℕ, ◌<◌, ◌≡◌}
use cbdc_tokenization_sandbo.Allocation.{BidPlaintext, Role}
use cbdc_tokenization_sandbo.Sealing.Bytes.{Bytes, IsByte, to_prefixed_hex}
use cbdc_tokenization_sandbo.Sealing.Envelope.{CiphertextParts}
use cbdc_tokenization_sandbo.Sealing.Envelope.Laws.{
  AreBytes, IsEnvelope, blob_of, blob_of-IsByte, pack_ciphertext-blob_of, parse_ciphertext-blob_of,
}
use cbdc_tokenization_sandbo.Sealing.Encryption.{
  EncryptBidResult, Packages, SealRandom, decrypt_bid, encrypt_bid, fields_of,
}
use cbdc_tokenization_sandbo.Sealing.Encryption.Laws.{
  IsDocumented, IsKeypair, IsSealRandom, IsSerialised, WrapsFor, decrypt_bid-opened,
  first_unwrapped-auctioneer, first_unwrapped-bidder, read_as, wrap_key-unwrap_key,
}

-- With documented libraries, the key pairs of the two recipients and a version that fits a byte,
-- `encryptBid` returns, and either recipient who names its role reads the document of the plaintext
-- with both hashes that `encryptBid` returned.
pub decrypt_bid-encrypt_bid :
    {Field : Type 0} (packages : Packages Field)
    → IsDocumented packages
    → (random : SealRandom) (plaintext : BidPlaintext) (version : Option ℕ) (hash : Text)
      (auctioneer_priv auctioneer_key bidder_priv bidder_key : Bytes)
    → get_or version 1 < 256
    → IsSealRandom packages random
    → IsKeypair packages auctioneer_priv auctioneer_key
    → IsKeypair packages bidder_priv bidder_key
    → IsSerialised packages plaintext hash
    → (sealed : EncryptBidResult) × (encrypt_bid packages random (record {
      plaintext = plaintext;
      auctioneer_pub_key = to_prefixed_hex auctioneer_key;
      bidder_pub_key = to_prefixed_hex bidder_key;
      version = version;
    })
        ≡ ok sealed)
      × (sealed.plaintext_hash ≡ hash)
      × (decrypt_bid packages sealed.ciphertext_hex
            (to_prefixed_hex auctioneer_priv)
            (some Role.auctioneer)
          ≡ ok (read_as packages plaintext sealed Role.auctioneer))
      × (decrypt_bid packages sealed.ciphertext_hex (to_prefixed_hex bidder_priv) (some Role.bidder)
          ≡ ok (read_as packages plaintext sealed Role.bidder))
unfolding encrypt_bid WrapsFor
decrypt_bid-encrypt_bid packages laws random plaintext version hash auctioneer_priv auctioneer_key
      bidder_priv bidder_key small (key_len, key_bytes, nonce, random_a, random_b) keypair_a
      keypair_b (plain_bytes, read_back, hashed) =
    let (wrap_a, (wraps_a, opens_a, is_a, a_bytes)) =
      wrap_key-unwrap_key packages laws random.for_auctioneer auctioneer_priv auctioneer_key
        random.sym_key random_a keypair_a key_len key_bytes in
    let (wrap_b, (wraps_b, opens_b, is_b, b_bytes)) =
      wrap_key-unwrap_key packages laws random.for_bidder bidder_priv bidder_key random.sym_key
        random_b keypair_b key_len key_bytes in
    let (ciphertext, tag, encrypts, decrypts, _, ciphertext_bytes, tag_len, tag_bytes) =
      laws.aes random.sym_key random.sym_nonce
        (packages.stringify (fields_of packages.text_field plaintext)) key_len nonce.0
        plain_bytes in
    let parts : CiphertextParts = record {
      version = get_or version 1;
      auctioneer_wrap = wrap_a;
      bidder_wrap = wrap_b;
      sym_nonce = random.sym_nonce;
      sym_ciphertext = ciphertext;
      sym_tag = tag;
    } in
    let is_envelope : IsEnvelope parts = (small, is_a, is_b, nonce.0, tag_len) in
    let are_bytes : AreBytes parts = (
      a_bytes,
      b_bytes,
      All-append IsByte random.sym_nonce _ nonce.1
          (All-append IsByte tag ciphertext tag_bytes ciphertext_bytes),
    ) in
    let blob = blob_of parts in
    let blob_bytes = blob_of-IsByte parts is_envelope are_bytes in
    let parsed = parse_ciphertext-blob_of parts is_envelope are_bytes in
    let sealed : EncryptBidResult = record {
      ciphertext_hex = to_prefixed_hex blob;
      plaintext_hash = hash;
      ciphertext_hash = packages.keccak256 blob;
    } in
    let hex_a = to_prefixed_hex auctioneer_priv in
    let hex_b = to_prefixed_hex bidder_priv in
    (
      sealed,
      rw (hashed, encrypts, wraps_a, wraps_b, pack_ciphertext-blob_of parts is_envelope) refl,
      refl,
      decrypt_bid-opened packages plaintext sealed hex_a Role.auctioneer parts random.sym_key blob
          parsed blob_bytes refl refl
          (first_unwrapped-auctioneer packages hex_a parts random.sym_key opens_a) decrypts
          (plain_bytes, read_back, hashed),
      decrypt_bid-opened packages plaintext sealed hex_b Role.bidder parts random.sym_key blob
          parsed blob_bytes refl refl
          (first_unwrapped-bidder packages hex_b parts random.sym_key opens_b) decrypts
          (plain_bytes, read_back, hashed),
    )
