-- ===== src/Sealing/Envelope/Inverse.antt =====
-- encryption.ts: what was parsed packs to the bytes that it was read from.
use mathlib.Core.Path.{subst}
use cbdc_tokenization_sandbo.Prelude.{
  >>=-eq-ok, All, All-drop, Text, [], ap, ap₂, arith, drop, if_thrown-eq-ok, length, length-drop,
  length-take, ltb, ok, ok-injective, refl, sym, take, take-++-drop, throw_if-eq-ok, ℕ, ◌%◌, ◌*◌,
  ◌++◌, ◌+◌, ◌/◌, ◌<◌, ◌∷◌, ◌≡◌, ◌≤◌,
}
use cbdc_tokenization_sandbo.Sealing.Bytes.{Bytes, IsByte, buffer_from_hex, read_uint16_be, strip0x}
use cbdc_tokenization_sandbo.Sealing.Envelope.{
  CiphertextParts, KeyWrap, invalid_auctioneer_wrap, invalid_bidder_wrap, missing_segment,
  pack_ciphertext, pack_key_wrap, parse_bytes, parse_ciphertext, parse_parts, parse_segment,
  read_wrap, unpack_key_wrap,
}
use cbdc_tokenization_sandbo.Sealing.Envelope.Laws.{IsEnvelope, IsWrap, u16_from_length-fits}
use cbdc_tokenization_sandbo.Sealing.Bytes.Laws.{All-IsByte-buffer_from_hex}

unpack_key_wrap-inverse :
    (bytes : Bytes) (wrap : KeyWrap)
    → length bytes ≤ 65535
    → unpack_key_wrap bytes ≡ ok wrap
    → IsWrap wrap × (pack_key_wrap wrap ≡ bytes)
unfolding unpack_key_wrap
unpack_key_wrap-inverse bytes wrap fits e =
    let (long_test, returned) = if_thrown-eq-ok (ltb (length bytes) 93) _ e in
    let long : 93 ≤ length bytes = ground arith in
    let after_key = length-drop 33 bytes in
    let after_nonce = length-drop 12 (drop 33 bytes) in
    let after_tag = length-drop 16 (drop 12 (drop 33 bytes)) in
    let whole : take 33 bytes
          ++ (take 12 (drop 33 bytes)
              ++ (take 16 (drop 12 (drop 33 bytes)) ++ drop 16 (drop 12 (drop 33 bytes))))
        ≡ bytes =
      rw
        (
          take-++-drop 16 (drop 12 (drop 33 bytes)),
          take-++-drop 12 (drop 33 bytes),
          take-++-drop 33 bytes,
        )
        refl in
    subst (λ (w : KeyWrap). IsWrap w × (pack_key_wrap w ≡ bytes)) (ok-injective returned)
      (
        (
          length-take 33 bytes (omega arith),
          length-take 12 (drop 33 bytes) (omega arith),
          length-take 16 (drop 12 (drop 33 bytes)) (omega arith),
          omega arith,
          rw (whole) fits,
        ),
        whole,
      )

read_wrap-inverse :
    (message : Text) (bytes wrap rest : Bytes)
    → All IsByte bytes
    → read_wrap message bytes ≡ ok (wrap, rest)
    → (length wrap ≤ 65535)
      × (bytes ≡ length wrap / 256 ∷ length wrap % 256 ∷ wrap ++ rest)
      × All IsByte rest
unfolding read_wrap read_uint16_be
read_wrap-inverse message [] wrap rest all_bytes e = absurd cc
read_wrap-inverse message (h ∷ []) wrap rest all_bytes e = absurd cc
read_wrap-inverse message (h ∷ l ∷ bytes) wrap rest all_bytes e =
    let (enough_test, returned) = if_thrown-eq-ok (ltb (length bytes) (h * 256 + l)) _ e in
    let len = length-take (h * 256 + l) bytes (ground arith) in
    let pair = ok-injective returned in
    let taken : take (h * 256 + l) bytes ≡ wrap = ap (λ p. p.0) pair in
    let dropped : drop (h * 256 + l) bytes ≡ rest = ap (λ p. p.1) pair in
    let len_wrap : length wrap ≡ h * 256 + l = rw (sym taken) len in
    let high : h ≡ length wrap / 256 = omega arith in
    let low : l ≡ length wrap % 256 = omega arith in
    let joined : bytes ≡ wrap ++ rest =
      rw (sym taken, sym dropped) (sym (take-++-drop (h * 256 + l) bytes)) in
    (
      omega arith,
      ap₂ ◌∷◌ high (ap₂ ◌∷◌ low joined),
      subst (All IsByte) dropped (All-drop IsByte (h * 256 + l) bytes all_bytes.1.1),
    )

-- The parts are well-formed, and these are their bytes.
abbrev IsReadFrom : ℕ → Bytes → Bytes → Bytes → CiphertextParts → Type 0
IsReadFrom version a_bytes b_bytes segment parts =
    IsEnvelope parts
    × (pack_key_wrap parts.auctioneer_wrap ≡ a_bytes)
    × (pack_key_wrap parts.bidder_wrap ≡ b_bytes)
    × (parts.sym_nonce ++ (parts.sym_tag ++ parts.sym_ciphertext) ≡ segment)
    × (parts.version ≡ version)

parse_segment-inverse :
    (version : ℕ) (a_bytes b_bytes segment : Bytes) (parts : CiphertextParts)
    → version < 256
    → length a_bytes ≤ 65535
    → length b_bytes ≤ 65535
    → parse_segment version a_bytes b_bytes segment ≡ ok parts
    → IsReadFrom version a_bytes b_bytes segment parts
unfolding parse_segment
parse_segment-inverse version a_bytes b_bytes segment parts small a_fits b_fits e =
    let (segment_test, e1) = throw_if-eq-ok (ltb (length segment) 28) missing_segment _ e in
    let (a, unpacked_a, e2) = >>=-eq-ok (unpack_key_wrap a_bytes) _ e1 in
    let (b, unpacked_b, e3) = >>=-eq-ok (unpack_key_wrap b_bytes) _ e2 in
    let (is_a, pack_a) = unpack_key_wrap-inverse a_bytes a a_fits unpacked_a in
    let (is_b, pack_b) = unpack_key_wrap-inverse b_bytes b b_fits unpacked_b in
    let after_nonce = length-drop 12 segment in
    let long : 28 ≤ length segment = ground arith in
    subst (IsReadFrom version a_bytes b_bytes segment) (ok-injective e3) (
      (
        small,
        is_a,
        is_b,
        length-take 12 segment (omega arith),
        length-take 16 (drop 12 segment) (omega arith),
      ),
      pack_a,
      pack_b,
      rw (take-++-drop 16 (drop 12 segment), take-++-drop 12 segment) refl,
      refl,
    )

parse_parts-inverse :
    (version : ℕ) (bytes : Bytes) (parts : CiphertextParts)
    → version < 256
    → All IsByte bytes
    → parse_parts version bytes ≡ ok parts
    → IsEnvelope parts × (pack_ciphertext parts ≡ ok (version ∷ bytes))
unfolding parse_parts pack_ciphertext
parse_parts-inverse version bytes parts small all_bytes e =
    let ((a_bytes, rest), read_a, e1) = >>=-eq-ok (read_wrap invalid_auctioneer_wrap bytes) _ e in
    let ((b_bytes, segment), read_b, e2) = >>=-eq-ok (read_wrap invalid_bidder_wrap rest) _ e1 in
    let (a_fits, a_split, rest_bytes) =
      read_wrap-inverse invalid_auctioneer_wrap bytes a_bytes rest all_bytes read_a in
    let (b_fits, b_split, segment_bytes) =
      read_wrap-inverse invalid_bidder_wrap rest b_bytes segment rest_bytes read_b in
    let (is_envelope, pack_a, pack_b, joined, same_version) =
      parse_segment-inverse version a_bytes b_bytes segment parts small a_fits b_fits e2 in
    let packed : pack_ciphertext parts ≡ ok (version ∷ bytes) =
      rw
        (
          pack_a,
          pack_b,
          u16_from_length-fits (length a_bytes) a_fits,
          u16_from_length-fits (length b_bytes) b_fits,
          joined,
          sym b_split,
          sym a_split,
          same_version,
        )
        (ap (λ v. ok (v ∷ bytes)) (omega arith)) in
    (is_envelope, packed)

parse_bytes-inverse :
    (bytes : Bytes) (parts : CiphertextParts)
    → All IsByte bytes
    → parse_bytes bytes ≡ ok parts
    → IsEnvelope parts × (pack_ciphertext parts ≡ ok bytes)
unfolding parse_bytes
parse_bytes-inverse [] parts all_bytes e = absurd cc
parse_bytes-inverse (v ∷ []) parts all_bytes e = absurd cc
parse_bytes-inverse (v ∷ h ∷ []) parts all_bytes e = absurd cc
parse_bytes-inverse (v ∷ h ∷ l ∷ rest) parts all_bytes e =
    parse_parts-inverse v (h ∷ l ∷ rest) parts all_bytes.0 all_bytes.1 e

-- If `parseCiphertext` returns, the parts have the lengths of an envelope, and packing them gives
-- the bytes that the text stands for.
pub pack_ciphertext-parse :
    (ciphertext_hex : Text) (parts : CiphertextParts)
    → parse_ciphertext ciphertext_hex ≡ ok parts
    → IsEnvelope parts × (pack_ciphertext parts ≡ ok (buffer_from_hex (strip0x ciphertext_hex)))
unfolding parse_ciphertext
pack_ciphertext-parse ciphertext_hex parts e =
    parse_bytes-inverse (buffer_from_hex (strip0x ciphertext_hex)) parts
      (All-IsByte-buffer_from_hex (strip0x ciphertext_hex)) e
