-- ===== src/Sealing/Envelope/Laws.antt =====
-- encryption.ts: packing the blob of a sealed bid, and parsing it.
use cbdc_tokenization_sandbo.Prelude.{
  All, All-append, Text, [], arith, drop-append, false, length, length-append, ltb, ok, refl,
  take-append, ℕ, ◌%◌, ◌*◌, ◌++◌, ◌+◌, ◌/◌, ◌<◌, ◌∷◌, ◌≡◌, ◌≤◌,
}
use cbdc_tokenization_sandbo.Sealing.Bytes.{
  Bytes, IsByte, read_uint16_be, to_prefixed_hex, u16_from_length,
}
use cbdc_tokenization_sandbo.Sealing.Envelope.{
  CiphertextParts, KeyWrap, invalid_auctioneer_wrap, invalid_bidder_wrap, pack_ciphertext,
  pack_key_wrap, parse_bytes, parse_ciphertext, parse_parts, parse_segment, read_wrap,
  unpack_key_wrap,
}
use cbdc_tokenization_sandbo.Sealing.Bytes.Laws.{buffer_from_hex-to_hex, strip0x-to_prefixed_hex}

-- The lengths of a wrap: its key of 32 bytes is encrypted, and it fits the two bytes of its length.
abbrev pub IsWrap : KeyWrap → Type 0
IsWrap wrap =
    (length wrap.ephemeral_public_key ≡ 33)
    × (length wrap.nonce ≡ 12)
    × (length wrap.auth_tag ≡ 16)
    × (32 ≤ length wrap.ciphertext)
    × (length (pack_key_wrap wrap) ≤ 65535)

abbrev pub IsEnvelope : CiphertextParts → Type 0
IsEnvelope parts =
    (parts.version < 256)
    × IsWrap parts.auctioneer_wrap
    × IsWrap parts.bidder_wrap
    × (length parts.sym_nonce ≡ 12)
    × (length parts.sym_tag ≡ 16)

pub length-pack_key_wrap :
    (wrap : KeyWrap)
    → length (pack_key_wrap wrap)
      ≡ length wrap.ephemeral_public_key
        + length wrap.nonce
        + length wrap.auth_tag
        + length wrap.ciphertext
length-pack_key_wrap wrap = omega (
  arith,
  length-append wrap.ephemeral_public_key (wrap.nonce ++ (wrap.auth_tag ++ wrap.ciphertext)),
  length-append wrap.nonce (wrap.auth_tag ++ wrap.ciphertext),
  length-append wrap.auth_tag wrap.ciphertext,
)

unpack_key_wrap-pack :
    (wrap : KeyWrap) → IsWrap wrap → unpack_key_wrap (pack_key_wrap wrap) ≡ ok wrap
unfolding unpack_key_wrap
unpack_key_wrap-pack wrap (key, nonce, tag, ciphertext, fits) =
    let after_tag = wrap.auth_tag ++ wrap.ciphertext in
    let after_nonce = wrap.nonce ++ after_tag in
    let long : ltb (length (pack_key_wrap wrap)) 93 ≡ false =
      ground (arith, length-pack_key_wrap wrap) in
    rw
      (
        long,
        take-append 33 wrap.ephemeral_public_key after_nonce key,
        drop-append 33 wrap.ephemeral_public_key after_nonce key,
        take-append 12 wrap.nonce after_tag nonce,
        drop-append 12 wrap.nonce after_tag nonce,
        take-append 16 wrap.auth_tag wrap.ciphertext tag,
        drop-append 16 wrap.auth_tag wrap.ciphertext tag,
      )
      refl

read_wrap-length :
    (message : Text) (wrap rest : Bytes)
    → length wrap ≤ 65535
    → read_wrap message (length wrap / 256 ∷ length wrap % 256 ∷ wrap ++ rest) ≡ ok (wrap, rest)
unfolding read_wrap read_uint16_be
read_wrap-length message wrap rest fits =
    let read : length wrap / 256 * 256 + length wrap % 256 ≡ length wrap = omega arith in
    let enough : ltb (length (wrap ++ rest)) (length wrap) ≡ false =
      ground (arith, length-append wrap rest) in
    rw
      (
        read,
        enough,
        take-append (length wrap) wrap rest refl,
        drop-append (length wrap) wrap rest refl,
      )
      refl

pub u16_from_length-fits : (n : ℕ) → n ≤ 65535 → u16_from_length n ≡ ok (n / 256 ∷ n % 256 ∷ [])
unfolding u16_from_length
u16_from_length-fits n fits = ground arith

parse_parts-segments :
    (version : ℕ) (a b : KeyWrap) (nonce tag ciphertext : Bytes)
    → IsWrap a
    → IsWrap b
    → length nonce ≡ 12
    → length tag ≡ 16
    → parse_parts version (
        length (pack_key_wrap a) / 256 ∷ length (pack_key_wrap a) % 256 ∷ pack_key_wrap a
        ++ (length (pack_key_wrap b) / 256 ∷ length (pack_key_wrap b) % 256 ∷ pack_key_wrap b
            ++ (nonce ++ (tag ++ ciphertext))))
      ≡ ok (record {
        version = version;
        auctioneer_wrap = a;
        bidder_wrap = b;
        sym_nonce = nonce;
        sym_ciphertext = ciphertext;
        sym_tag = tag;
      })
unfolding parse_parts parse_segment
parse_parts-segments version a b nonce tag ciphertext is_a is_b nonce_len tag_len =
    let segment = nonce ++ (tag ++ ciphertext) in
    let enough : ltb (length segment) 28 ≡ false =
      ground (arith, length-append nonce (tag ++ ciphertext), length-append tag ciphertext) in
    rw
      (
        read_wrap-length invalid_auctioneer_wrap (pack_key_wrap a)
            (length (pack_key_wrap b) / 256 ∷ length (pack_key_wrap b) % 256 ∷ pack_key_wrap b
              ++ segment)
            is_a.4,
        read_wrap-length invalid_bidder_wrap (pack_key_wrap b) segment is_b.4,
        enough,
        unpack_key_wrap-pack a is_a,
        unpack_key_wrap-pack b is_b,
        take-append 12 nonce (tag ++ ciphertext) nonce_len,
        drop-append 12 nonce (tag ++ ciphertext) nonce_len,
        take-append 16 tag ciphertext tag_len,
        drop-append 16 tag ciphertext tag_len,
      )
      refl

-- The bytes of a well-formed envelope.
abbrev pub framed : Bytes → Bytes → Bytes
framed wrap rest = length wrap / 256 ∷ length wrap % 256 ∷ wrap ++ rest

abbrev pub blob_of : CiphertextParts → Bytes
blob_of parts =
    parts.version
    ∷ framed (pack_key_wrap parts.auctioneer_wrap) (
        framed (pack_key_wrap parts.bidder_wrap)
          (parts.sym_nonce ++ (parts.sym_tag ++ parts.sym_ciphertext)))

pub pack_ciphertext-blob_of :
    (parts : CiphertextParts) → IsEnvelope parts → pack_ciphertext parts ≡ ok (blob_of parts)
unfolding pack_ciphertext
pack_ciphertext-blob_of parts (version, is_a, is_b, _, _) =
    let byte : parts.version % 256 ≡ parts.version = omega arith in
    rw
      (
        u16_from_length-fits (length (pack_key_wrap parts.auctioneer_wrap)) is_a.4,
        u16_from_length-fits (length (pack_key_wrap parts.bidder_wrap)) is_b.4,
        byte,
      )
      refl

parse_bytes-blob_of :
    (parts : CiphertextParts) → IsEnvelope parts → parse_bytes (blob_of parts) ≡ ok parts
unfolding parse_bytes
parse_bytes-blob_of parts (version, is_a, is_b, nonce, tag) =
    parse_parts-segments parts.version parts.auctioneer_wrap parts.bidder_wrap parts.sym_nonce
      parts.sym_tag parts.sym_ciphertext is_a is_b nonce tag

-- Every number in the parts is a byte.
abbrev pub AreBytes : CiphertextParts → Type 0
AreBytes parts =
    All IsByte (pack_key_wrap parts.auctioneer_wrap)
    × All IsByte (pack_key_wrap parts.bidder_wrap)
    × All IsByte (parts.sym_nonce ++ (parts.sym_tag ++ parts.sym_ciphertext))

framed-IsByte :
    (wrap rest : Bytes)
    → length wrap ≤ 65535
    → All IsByte wrap
    → All IsByte rest
    → All IsByte (framed wrap rest)
framed-IsByte wrap rest fits wrap_bytes rest_bytes =
    (omega arith, (omega arith, All-append IsByte wrap rest wrap_bytes rest_bytes))

pub blob_of-IsByte :
    (parts : CiphertextParts) → IsEnvelope parts → AreBytes parts → All IsByte (blob_of parts)
blob_of-IsByte parts (version, is_a, is_b, _, _) (a_bytes, b_bytes, segment_bytes) =
    let a = pack_key_wrap parts.auctioneer_wrap in
    let b = pack_key_wrap parts.bidder_wrap in
    let segment = parts.sym_nonce ++ (parts.sym_tag ++ parts.sym_ciphertext) in
    (
      version,
      framed-IsByte a (framed b segment) is_a.4 a_bytes
          (framed-IsByte b segment is_b.4 b_bytes segment_bytes),
    )

pub parse_ciphertext-blob_of :
    (parts : CiphertextParts)
    → IsEnvelope parts
    → AreBytes parts
    → parse_ciphertext (to_prefixed_hex (blob_of parts)) ≡ ok parts
unfolding parse_ciphertext
parse_ciphertext-blob_of parts is_envelope are_bytes =
    rw
      (
        strip0x-to_prefixed_hex (blob_of parts),
        buffer_from_hex-to_hex (blob_of parts) (blob_of-IsByte parts is_envelope are_bytes),
      )
      (parse_bytes-blob_of parts is_envelope)

-- An envelope with the lengths of the format packs to a blob, and `parseCiphertext` reads it back
-- from the text of the blob.
pub parse_ciphertext-pack_ciphertext :
    (parts : CiphertextParts)
    → IsEnvelope parts
    → AreBytes parts
    → (blob : Bytes) × (pack_ciphertext parts ≡ ok blob)
      × (parse_ciphertext (to_prefixed_hex blob) ≡ ok parts)
parse_ciphertext-pack_ciphertext parts is_envelope are_bytes = (
  blob_of parts,
  pack_ciphertext-blob_of parts is_envelope,
  parse_ciphertext-blob_of parts is_envelope are_bytes,
)
