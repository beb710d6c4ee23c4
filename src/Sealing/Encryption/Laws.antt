-- ===== src/Sealing/Encryption/Laws.antt =====
-- encryption.ts: who can open a sealed bid, and what they find.
use cbdc_tokenization_sandbo.Prelude.{
  All, All-append, Text, arith, drop, length, ok, refl, some, ◌≡◌,
}
use cbdc_tokenization_sandbo.Sealing.Bytes.{Bytes, IsByte, to_prefixed_hex}
use cbdc_tokenization_sandbo.Sealing.Bytes.Laws.{
  IsCompressedKey, IsCompressedKey-IsByte, buffer_from_hex-to_hex, length-IsCompressedKey,
  normalize_compressed_pub_key-to_prefixed_hex, normalize_private_key-to_prefixed_hex,
  strip0x-to_prefixed_hex,
}
use cbdc_tokenization_sandbo.Sealing.Envelope.{
  CiphertextParts, KeyWrap, pack_key_wrap, parse_ciphertext,
}
use cbdc_tokenization_sandbo.Sealing.Envelope.Laws.{IsWrap, length-pack_key_wrap}
use cbdc_tokenization_sandbo.Sealing.Encryption.{
  DecryptBidResult, EncryptBidResult, Json, Packages, SealRandom, WrapRandom, decrypt_bid,
  document_of, fields_of, first_unwrapped, hash_bid_plaintext, role_order, unwrap_key,
  wrap_key_for_recipient,
}
use cbdc_tokenization_sandbo.Allocation.{BidPlaintext, Role}

module _ {Field : Type 0} (packages : Packages Field) where
  -- What the libraries document: the keys of the curve are compressed points, the shared secret of
  -- two key pairs is the same from both sides, a SHA-256 has 32 bytes, and AES-256-GCM, given a key
  -- of 32 bytes, a nonce of 12 and bytes, returns as many bytes and a tag of 16, which decrypt.
  pub record IsDocumented : Type 0 where
    pub public_key :
        (priv key : Bytes) → packages.get_public_key priv ≡ ok key → IsCompressedKey key
    pub shared_secret :
        (a b key_a key_b : Bytes)
        → packages.get_public_key a ≡ ok key_a
        → packages.get_public_key b ≡ ok key_b
        → (secret : Bytes) × (packages.get_shared_secret a key_b ≡ ok secret)
          × (packages.get_shared_secret b key_a ≡ ok secret)
    pub sha256 : (bytes : Bytes) → length (packages.sha256 bytes) ≡ 32
    pub aes :
        (key nonce plaintext : Bytes)
        → length key ≡ 32
        → length nonce ≡ 12
        → All IsByte plaintext
        → (ciphertext : Bytes) × (tag : Bytes) × (packages.aes_encrypt key nonce plaintext
            ≡ ok (ciphertext, tag))
          × (packages.aes_decrypt key nonce ciphertext tag ≡ ok plaintext)
          × (length ciphertext ≡ length plaintext)
          × All IsByte ciphertext
          × (length tag ≡ 16)
          × All IsByte tag

  -- A private key of 32 bytes and its public key.
  abbrev pub IsKeypair : Bytes → Bytes → Type 0
  IsKeypair priv key =
      (packages.get_public_key priv ≡ ok key) × (length priv ≡ 32) × All IsByte priv

  abbrev pub IsNonce : Bytes → Type 0
  IsNonce nonce = (length nonce ≡ 12) × All IsByte nonce

  abbrev pub IsWrapRandom : WrapRandom → Type 0
  IsWrapRandom random =
      IsNonce random.nonce
      × ((key : Bytes) × (packages.get_public_key random.ephemeral_priv ≡ ok key))

  -- A wrap that was made for a key pair is opened with its private key.
  unfoldable pub WrapsFor : WrapRandom → Bytes → Bytes → Bytes → KeyWrap → Type 0
  WrapsFor random priv key sym_key wrap =
      (wrap_key_for_recipient packages random (to_prefixed_hex key) sym_key ≡ ok wrap)
      × (unwrap_key packages (to_prefixed_hex priv) wrap ≡ ok sym_key)
      × IsWrap wrap
      × All IsByte (pack_key_wrap wrap)

  pub wrap_key-unwrap_key :
      IsDocumented
      → (random : WrapRandom) (priv key sym_key : Bytes) → IsWrapRandom random
      → IsKeypair priv key
      → length sym_key ≡ 32
      → All IsByte sym_key
      → (wrap : KeyWrap) × WrapsFor random priv key sym_key wrap
  unfolding WrapsFor wrap_key_for_recipient unwrap_key
  wrap_key-unwrap_key laws random priv key sym_key (nonce, (ephemeral, is_ephemeral))
        (is_key, priv_len, priv_bytes) key_len key_bytes =
      let (secret, from_here, from_there) =
        laws.shared_secret random.ephemeral_priv priv ephemeral key is_ephemeral is_key in
      let shared = packages.sha256 (drop 1 secret) in
      let (ciphertext, tag, encrypts, decrypts, len, ciphertext_bytes, tag_len, tag_bytes) =
        laws.aes shared random.nonce sym_key (laws.sha256 (drop 1 secret)) nonce.0 key_bytes in
      let is_point = laws.public_key priv key is_key in
      let is_ephemeral_point = laws.public_key random.ephemeral_priv ephemeral is_ephemeral in
      let wrap : KeyWrap = record {
        ephemeral_public_key = ephemeral;
        nonce = random.nonce;
        ciphertext = ciphertext;
        auth_tag = tag;
      } in
      let ephemeral_len = length-IsCompressedKey ephemeral is_ephemeral_point in
      (
        wrap,
        (
          rw
              (
                normalize_compressed_pub_key-to_prefixed_hex key is_point,
                from_here,
                encrypts,
                is_ephemeral,
              )
              refl,
          rw (normalize_private_key-to_prefixed_hex priv priv_bytes priv_len, from_there) decrypts,
          (ephemeral_len, nonce.0, tag_len, omega arith, omega (arith, length-pack_key_wrap wrap)),
          All-append IsByte ephemeral _ (IsCompressedKey-IsByte ephemeral is_ephemeral_point) (
              All-append IsByte random.nonce _ nonce.1
                (All-append IsByte tag ciphertext tag_bytes ciphertext_bytes)),
        ),
      )

  -- The plaintext has a hash, and reading its JSON gives the document back.
  abbrev pub IsSerialised : BidPlaintext → Text → Type 0
  IsSerialised plaintext hash =
      All IsByte (packages.stringify (fields_of packages.text_field plaintext))
      × (packages.parse_json (packages.stringify (fields_of packages.text_field plaintext))
          ≡ ok (document_of packages plaintext))
      × (hash_bid_plaintext packages (document_of packages plaintext) ≡ ok hash)

  abbrev pub IsSealRandom : SealRandom → Type 0
  IsSealRandom random =
      (length random.sym_key ≡ 32)
      × All IsByte random.sym_key
      × IsNonce random.sym_nonce
      × IsWrapRandom random.for_auctioneer
      × IsWrapRandom random.for_bidder

  pub first_unwrapped-auctioneer :
      (hex : Text) (parts : CiphertextParts) (sym_key : Bytes)
      → unwrap_key packages hex parts.auctioneer_wrap ≡ ok sym_key
      → first_unwrapped packages hex parts (role_order (some Role.auctioneer))
        ≡ some (sym_key, Role.auctioneer)
  unfolding first_unwrapped role_order
  first_unwrapped-auctioneer hex parts sym_key opens = rw (opens) refl

  pub first_unwrapped-bidder :
      (hex : Text) (parts : CiphertextParts) (sym_key : Bytes)
      → unwrap_key packages hex parts.bidder_wrap ≡ ok sym_key
      → first_unwrapped packages hex parts (role_order (some Role.bidder))
        ≡ some (sym_key, Role.bidder)
  unfolding first_unwrapped role_order
  first_unwrapped-bidder hex parts sym_key opens = rw (opens) refl

  -- What the holder of a key reads in a sealed bid.
  abbrev pub read_as : BidPlaintext → EncryptBidResult → Role → DecryptBidResult (Json Field)
  read_as plaintext sealed role = record {
    plaintext = document_of packages plaintext;
    plaintext_hash = sealed.plaintext_hash;
    ciphertext_hash = sealed.ciphertext_hash;
    used_wrap = role;
  }

  pub decrypt_bid-opened :
      (plaintext : BidPlaintext) (sealed : EncryptBidResult) (hex : Text) (role : Role)
      (parts : CiphertextParts) (sym_key blob : Bytes)
      → parse_ciphertext (to_prefixed_hex blob) ≡ ok parts
      → All IsByte blob
      → sealed.ciphertext_hex ≡ to_prefixed_hex blob
      → sealed.ciphertext_hash ≡ packages.keccak256 blob
      → first_unwrapped packages hex parts (role_order (some role)) ≡ some (sym_key, role)
      → packages.aes_decrypt sym_key parts.sym_nonce parts.sym_ciphertext parts.sym_tag
        ≡ ok (packages.stringify (fields_of packages.text_field plaintext))
      → IsSerialised plaintext sealed.plaintext_hash
      → decrypt_bid packages sealed.ciphertext_hex hex (some role)
        ≡ ok (read_as plaintext sealed role)
  unfolding decrypt_bid
  decrypt_bid-opened plaintext sealed hex role parts sym_key blob parsed blob_bytes text_of hash_of
        opened decrypts (_, read_back, hashed) =
      rw
        (
          text_of,
          parsed,
          opened,
          decrypts,
          read_back,
          hashed,
          strip0x-to_prefixed_hex blob,
          buffer_from_hex-to_hex blob blob_bytes,
          hash_of,
        )
        refl
