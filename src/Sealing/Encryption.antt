-- ===== src/Sealing/Encryption.antt =====
-- encryption.ts: sealing a bid for two recipients, and opening it with the key of either. The
-- libraries for keys, AES-GCM, hashes and JSON are the record `Packages`; what the source draws at
-- random is an argument.
pub mod Laws
pub mod RoundTrip
use cbdc_tokenization_sandbo.Prelude.{
  Error, List, Option, Result, Text, [], case_option, case_result, codes, drop, err, failure,
  get_or, if◌then◌else◌, none, ok, some, text_eq, ℕ, ◌>>=◌, ◌>>◌, ◌∷◌,
}
use cbdc_tokenization_sandbo.Allocation.{BidPlaintext, Role, auctioneer, bidder, rate}
use cbdc_tokenization_sandbo.Sealing.Bytes.{
  Bytes, BytesOrText, buffer_from_hex, bytes_value, ensure_bytes, normalize_compressed_pub_key,
  normalize_private_key, strip0x, to_prefixed_hex,
}
use cbdc_tokenization_sandbo.Sealing.Envelope.{
  CiphertextParts, KeyWrap, pack_ciphertext, parse_ciphertext,
}

-- What `JSON.parse` returns: an object with its fields in their order, or anything else. `Field` is
-- what a field can hold.
pub data Json (Field : Type 0) : Type 0 where
  json_object : List (Text × Field) → Json Field
  json_other : Field → Json Field

pub record Packages (Field : Type 0) : Type 0 where
  pub get_public_key : Bytes → Result Bytes
  pub get_shared_secret : Bytes → Bytes → Result Bytes
  pub sha256 : Bytes → Bytes
  -- key, nonce, plaintext: the ciphertext and the tag
  pub aes_encrypt : Bytes → Bytes → Bytes → Result (Bytes × Bytes)
  -- key, nonce, ciphertext, tag
  pub aes_decrypt : Bytes → Bytes → Bytes → Bytes → Result Bytes
  pub keccak256 : Bytes → Text
  -- a text as the value of a field
  pub text_field : Text → Field
  -- `Buffer.from(JSON.stringify(object), 'utf8')`, and the same of the rest of what is no object
  pub stringify : List (Text × Field) → Bytes
  pub stringify_rest : Field → Result Bytes
  pub parse_json : Bytes → Result (Json Field)

-- A plaintext as an object, its fields in the order of buildSealedBid.
unfoldable pub fields_of : {Field : Type 0} → (Text → Field) → BidPlaintext → List (Text × Field)
fields_of text_field plaintext =
    (codes "isin", text_field plaintext.isin)
    ∷ (codes "bidder", text_field plaintext.bidder)
    ∷ (codes "nonce", text_field plaintext.nonce)
    ∷ (codes "rate", text_field plaintext.rate)
    ∷ (codes "units", text_field plaintext.units)
    ∷ (codes "salt", text_field plaintext.salt)
    ∷ (codes "bidderNonce", text_field plaintext.bidder_nonce)
    ∷ (codes "bidderSig", text_field plaintext.bidder_sig)
    ∷ []

unfoldable pub document_of : {Field : Type 0} → Packages Field → BidPlaintext → Json Field
document_of packages plaintext = json_object (fields_of packages.text_field plaintext)

-- `const { [key]: _, ...rest } = object`
unfoldable pub without : {Field : Type 0} → Text → List (Text × Field) → List (Text × Field)
without key [] = []
without key (field ∷ fields) =
    let rest = without key fields in if text_eq field.0 key then rest else field ∷ rest

-- The random bytes of a wrap, and of a sealed bid.
pub record WrapRandom : Type 0 where
  pub ephemeral_priv : Bytes
  pub nonce : Bytes

pub record SealRandom : Type 0 where
  pub sym_key : Bytes
  pub sym_nonce : Bytes
  pub for_auctioneer : WrapRandom
  pub for_bidder : WrapRandom

pub record EncryptBidParams : Type 0 where
  pub plaintext : BidPlaintext
  pub auctioneer_pub_key : Text
  pub bidder_pub_key : Text
  pub version : Option ℕ

pub record EncryptBidResult : Type 0 where
  pub ciphertext_hex : Text
  pub plaintext_hash : Text
  pub ciphertext_hash : Text

pub record DecryptBidResult (Document : Type 0) : Type 0 where
  pub plaintext : Document
  pub plaintext_hash : Text
  pub ciphertext_hash : Text
  pub used_wrap : Role

pub record GeneratedKeypair : Type 0 where
  pub private_key : Text
  pub public_key : Text

unfoldable pub role_order : Option Role → List Role
role_order (some Role.bidder) = Role.bidder ∷ Role.auctioneer ∷ []
role_order _ = Role.auctioneer ∷ Role.bidder ∷ []

unfoldable pub wrap_of : CiphertextParts → Role → KeyWrap
wrap_of parts Role.auctioneer = parts.auctioneer_wrap
wrap_of parts Role.bidder = parts.bidder_wrap

abbrev pub no_wrap_opens : Error
no_wrap_opens = failure (codes "private key could not decrypt any wrapped symmetric key")

module _ {Field : Type 0} (packages : Packages Field) where
  unfoldable pub generate_keypair : Bytes → Result GeneratedKeypair
  generate_keypair priv = do
    public_bytes ← packages.get_public_key priv
    ok (record { private_key = to_prefixed_hex priv; public_key = to_prefixed_hex public_bytes })

  -- The signature is no part of what is hashed.
  unfoldable pub hash_bid_plaintext : Json Field → Result Text
  unfolding without
  hash_bid_plaintext (json_object fields) =
      ok (packages.keccak256 (packages.stringify (without (codes "bidderSig") fields)))
  hash_bid_plaintext (json_other value) = do
    bytes ← packages.stringify_rest value
    ok (packages.keccak256 bytes)

  unfoldable pub derive_shared_secret : Bytes → BytesOrText → Result Bytes
  unfolding ensure_bytes
  derive_shared_secret private_key public_key = do
    public_key_bytes ← ensure_bytes public_key
    shared ← packages.get_shared_secret private_key public_key_bytes
    ok (packages.sha256 (drop 1 shared))

  unfoldable pub wrap_key_for_recipient : WrapRandom → Text → Bytes → Result KeyWrap
  unfolding derive_shared_secret
  wrap_key_for_recipient random recipient_pub_key_hex key = do
    recipient_pub_key ← normalize_compressed_pub_key recipient_pub_key_hex
    shared_key ← derive_shared_secret random.ephemeral_priv (bytes_value recipient_pub_key)
    (ciphertext, auth_tag) ← packages.aes_encrypt shared_key random.nonce key
    ephemeral_public_key ← packages.get_public_key random.ephemeral_priv
    ok (record {
      ephemeral_public_key = ephemeral_public_key;
      nonce = random.nonce;
      ciphertext = ciphertext;
      auth_tag = auth_tag;
    })

  unfoldable pub unwrap_key : Text → KeyWrap → Result Bytes
  unfolding derive_shared_secret
  unwrap_key private_key_hex wrap = do
    priv_key ← normalize_private_key private_key_hex
    shared_key ← derive_shared_secret priv_key (bytes_value wrap.ephemeral_public_key)
    packages.aes_decrypt shared_key wrap.nonce wrap.ciphertext wrap.auth_tag

  unfoldable pub encrypt_bid : SealRandom → EncryptBidParams → Result EncryptBidResult
  unfolding hash_bid_plaintext wrap_key_for_recipient pack_ciphertext
  encrypt_bid random params = do
    plaintext_hash ← hash_bid_plaintext (document_of packages params.plaintext)
    (sym_ciphertext, sym_tag) ←
        packages.aes_encrypt random.sym_key random.sym_nonce
          (packages.stringify (fields_of packages.text_field params.plaintext))
    auctioneer_wrap ←
        wrap_key_for_recipient random.for_auctioneer params.auctioneer_pub_key random.sym_key
    bidder_wrap ← wrap_key_for_recipient random.for_bidder params.bidder_pub_key random.sym_key
    blob ← pack_ciphertext (record {
      version = get_or params.version 1;
      auctioneer_wrap = auctioneer_wrap;
      bidder_wrap = bidder_wrap;
      sym_nonce = random.sym_nonce;
      sym_ciphertext = sym_ciphertext;
      sym_tag = sym_tag;
    })
    ok (record {
      ciphertext_hex = to_prefixed_hex blob;
      plaintext_hash = plaintext_hash;
      ciphertext_hash = packages.keccak256 blob;
    })

  -- The first wrap that the key opens, and whose it is.
  unfoldable pub first_unwrapped : Text → CiphertextParts → List Role → Option (Bytes × Role)
  unfolding unwrap_key wrap_of
  first_unwrapped private_key_hex parts [] = none
  first_unwrapped private_key_hex parts (role ∷ roles) =
      let rest = first_unwrapped private_key_hex parts roles in
      case_result (unwrap_key private_key_hex (wrap_of parts role)) (λ _. rest)
        (λ sym_key. some (sym_key, role))

  unfoldable pub decrypt_bid : Text → Text → Option Role → Result (DecryptBidResult (Json Field))
  unfolding parse_ciphertext role_order first_unwrapped hash_bid_plaintext
  decrypt_bid ciphertext_hex private_key_hex preferred_role = do
    let ciphertext_hash = packages.keccak256 (buffer_from_hex (strip0x ciphertext_hex))
    parts ← parse_ciphertext ciphertext_hex
    (sym_key, used_wrap) ←
        case_option (first_unwrapped private_key_hex parts (role_order preferred_role))
          (err no_wrap_opens) ok
    plaintext_bytes ←
        packages.aes_decrypt sym_key parts.sym_nonce parts.sym_ciphertext parts.sym_tag
    plaintext ← packages.parse_json plaintext_bytes
    plaintext_hash ← hash_bid_plaintext plaintext
    ok (record {
      plaintext = plaintext;
      plaintext_hash = plaintext_hash;
      ciphertext_hash = ciphertext_hash;
      used_wrap = used_wrap;
    })
