-- ===== src/Sealing/Envelope.antt =====
-- encryption.ts: the blob of a sealed bid: a version, two wraps of the key with their lengths, and
-- the encrypted plaintext. The `offset` of the source is the list of bytes from there on.
pub mod Inverse
pub mod Laws
use cbdc_tokenization_sandbo.Prelude.{
  Error, Result, Text, codes, drop, err, failure, if◌then◌else◌, length, ltb, ok, take, throw_if, ℕ,
  ◌%◌, ◌++◌, ◌+◌, ◌>>=◌, ◌>>◌, ◌∷◌,
}
use cbdc_tokenization_sandbo.Sealing.Bytes.{
  Bytes, buffer_from_hex, read_uint16_be, strip0x, throw_error, u16_from_length,
}

pub record KeyWrap : Type 0 where
  pub ephemeral_public_key : Bytes
  pub nonce : Bytes
  pub ciphertext : Bytes
  pub auth_tag : Bytes

pub record CiphertextParts : Type 0 where
  pub version : ℕ
  pub auctioneer_wrap : KeyWrap
  pub bidder_wrap : KeyWrap
  pub sym_nonce : Bytes
  pub sym_ciphertext : Bytes
  pub sym_tag : Bytes

abbrev pub pack_key_wrap : KeyWrap → Bytes
pack_key_wrap wrap = wrap.ephemeral_public_key ++ (wrap.nonce ++ (wrap.auth_tag ++ wrap.ciphertext))

-- 93 = KEY_WRAP_PUBKEY_LEN + KEY_WRAP_NONCE_LEN + KEY_WRAP_TAG_LEN + SYM_KEY_LEN
unfoldable pub unpack_key_wrap : Bytes → Result KeyWrap
unpack_key_wrap bytes =
    if ltb (length bytes) (33 + 12 + 16 + 32)
    then throw_error (codes "invalid key wrap")
    else ok (record {
      ephemeral_public_key = take 33 bytes;
      nonce = take 12 (drop 33 bytes);
      auth_tag = take 16 (drop 12 (drop 33 bytes));
      ciphertext = drop 16 (drop 12 (drop 33 bytes));
    })

unfoldable pub pack_ciphertext : CiphertextParts → Result Bytes
unfolding u16_from_length
pack_ciphertext parts = do
  let auctioneer_wrap_bytes = pack_key_wrap parts.auctioneer_wrap
  let bidder_wrap_bytes = pack_key_wrap parts.bidder_wrap
  auctioneer_length ← u16_from_length (length auctioneer_wrap_bytes)
  bidder_length ← u16_from_length (length bidder_wrap_bytes)
  ok (
      parts.version % 256
      ∷ (auctioneer_length
          ++ (auctioneer_wrap_bytes
              ++ (bidder_length
                  ++ (bidder_wrap_bytes
                      ++ (parts.sym_nonce ++ (parts.sym_tag ++ parts.sym_ciphertext)))))))

-- One wrap after its length, and the bytes after it.
unfoldable pub read_wrap : Text → Bytes → Result (Bytes × Bytes)
unfolding read_uint16_be
read_wrap message bytes = do
  (len, rest) ← read_uint16_be bytes
  if ltb (length rest) len then throw_error message else ok (take len rest, drop len rest)

abbrev pub invalid_auctioneer_wrap : Text
invalid_auctioneer_wrap = codes "invalid auctioneer wrap length"

abbrev pub invalid_bidder_wrap : Text
invalid_bidder_wrap = codes "invalid bidder wrap length"

abbrev pub missing_segment : Error
missing_segment = failure (codes "ciphertext missing symmetric segment")

-- The end, from the two wraps and the bytes after them.
unfoldable pub parse_segment : ℕ → Bytes → Bytes → Bytes → Result CiphertextParts
unfolding unpack_key_wrap
parse_segment version auctioneer_wrap_bytes bidder_wrap_bytes segment = do
  throw_if (ltb (length segment) (12 + 16)) missing_segment
  auctioneer_wrap ← unpack_key_wrap auctioneer_wrap_bytes
  bidder_wrap ← unpack_key_wrap bidder_wrap_bytes
  ok (record {
    version = version;
    auctioneer_wrap = auctioneer_wrap;
    bidder_wrap = bidder_wrap;
    sym_nonce = take 12 segment;
    sym_tag = take 16 (drop 12 segment);
    sym_ciphertext = drop 16 (drop 12 segment);
  })

-- What follows the version.
unfoldable pub parse_parts : ℕ → Bytes → Result CiphertextParts
unfolding read_wrap parse_segment
parse_parts version bytes = do
  (auctioneer_wrap_bytes, rest) ← read_wrap invalid_auctioneer_wrap bytes
  (bidder_wrap_bytes, segment) ← read_wrap invalid_bidder_wrap rest
  parse_segment version auctioneer_wrap_bytes bidder_wrap_bytes segment

abbrev pub too_short : Error
too_short = failure (codes "ciphertext too short")

unfoldable pub parse_bytes : Bytes → Result CiphertextParts
unfolding parse_parts
parse_bytes (version ∷ high ∷ low ∷ rest) = parse_parts version (high ∷ low ∷ rest)
parse_bytes _ = err too_short

unfoldable pub parse_ciphertext : Text → Result CiphertextParts
unfolding strip0x buffer_from_hex parse_bytes
parse_ciphertext ciphertext_hex = parse_bytes (buffer_from_hex (strip0x ciphertext_hex))
