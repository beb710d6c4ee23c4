-- ===== src/Sealing/Bytes/Laws.antt =====
-- encryption.ts: hexadecimal texts of bytes.
use cbdc_tokenization_sandbo.Prelude.{
  All, Option-cases, Text, [], ap, arith, codes, inl, inr, length, ok, refl, some, text_eq, true, ℕ,
  ◌%◌, ◌*◌, ◌/◌, ◌<◌, ◌||◌, ◌∷◌, ◌≡◌, ◌⊎◌,
}
use cbdc_tokenization_sandbo.Sealing.Bytes.{
  Bytes, IsByte, buffer_from_hex, hex_digit, hex_pair, hex_value, is_hex,
  normalize_compressed_pub_key, normalize_private_key, strip0x, to_hex, to_prefixed_hex,
}

hex_value-hex_digit : (n : ℕ) → n < 16 → hex_value (hex_digit n) ≡ some n
unfolding hex_value hex_digit
hex_value-hex_digit n small = ground arith

hex_pair-IsByte : (c d : ℕ) (b : ℕ) → hex_pair c d ≡ some b → IsByte b
unfolding hex_value
hex_pair-IsByte c d b e = ground arith

hex_pair-hex_digit :
    (b : ℕ) → IsByte b → hex_pair (hex_digit (b / 16)) (hex_digit (b % 16)) ≡ some b
hex_pair-hex_digit b byte =
    rw (hex_value-hex_digit (b / 16) (omega arith), hex_value-hex_digit (b % 16) (omega arith))
      (ap some (omega arith))

pub buffer_from_hex-to_hex :
    (bytes : Bytes) → All IsByte bytes → buffer_from_hex (to_hex bytes) ≡ bytes
unfolding buffer_from_hex to_hex
buffer_from_hex-to_hex [] all_bytes = refl
buffer_from_hex-to_hex (b ∷ bytes) all_bytes =
    rw (hex_pair-hex_digit b all_bytes.0, buffer_from_hex-to_hex bytes all_bytes.1) refl

pub strip0x-to_prefixed_hex : (bytes : Bytes) → strip0x (to_prefixed_hex bytes) ≡ to_hex bytes
unfolding strip0x to_prefixed_hex
strip0x-to_prefixed_hex bytes = refl

pub All-IsByte-buffer_from_hex : (text : Text) → All IsByte (buffer_from_hex text)
unfolding buffer_from_hex
All-IsByte-buffer_from_hex [] = tt
All-IsByte-buffer_from_hex (c ∷ []) = tt
All-IsByte-buffer_from_hex (c ∷ d ∷ text) = elim (Option-cases (hex_pair c d)) [
  | inl no_pair ↦ rw (no_pair) tt
  | inr (b, is_pair) ↦ rw (is_pair) (hex_pair-IsByte c d b is_pair, All-IsByte-buffer_from_hex text)
]

length-to_hex : (bytes : Bytes) → length (to_hex bytes) ≡ 2 * length bytes
unfolding to_hex
length-to_hex [] = refl
length-to_hex (b ∷ bytes) = omega (arith, length-to_hex bytes)

is_hex-to_hex : (bytes : Bytes) → All IsByte bytes → is_hex (to_hex bytes) ≡ true
unfolding is_hex to_hex
is_hex-to_hex [] all_bytes = refl
is_hex-to_hex (b ∷ bytes) all_bytes =
    rw (hex_value-hex_digit (b / 16) (omega arith), hex_value-hex_digit (b % 16) (omega arith))
      (is_hex-to_hex bytes all_bytes.1)

-- A private key of 32 bytes is read back from its text.
pub normalize_private_key-to_prefixed_hex :
    (key : Bytes)
    → All IsByte key
    → length key ≡ 32
    → normalize_private_key (to_prefixed_hex key) ≡ ok key
unfolding normalize_private_key
normalize_private_key-to_prefixed_hex key all_bytes len =
    rw
      (
        strip0x-to_prefixed_hex key,
        is_hex-to_hex key all_bytes,
        length-to_hex key,
        len,
        buffer_from_hex-to_hex key all_bytes,
      )
      refl

-- A compressed key of 33 bytes: the first is 2 or 3.
abbrev pub IsCompressedKey : Bytes → Type 0
IsCompressedKey [] = ⊥
IsCompressedKey (b ∷ rest) = ((b ≡ 2) ⊎ (b ≡ 3)) × All IsByte rest × (length rest ≡ 32)

normalize-digits :
    (b : ℕ) (rest : Bytes)
    → IsByte b
    → All IsByte rest
    → length rest ≡ 32
    → (text_eq (hex_digit (b / 16) ∷ hex_digit (b % 16) ∷ []) (codes "02")
        || text_eq (hex_digit (b / 16) ∷ hex_digit (b % 16) ∷ []) (codes "03"))
      ≡ true
    → normalize_compressed_pub_key (to_prefixed_hex (b ∷ rest)) ≡ ok (b ∷ rest)
unfolding normalize_compressed_pub_key text_eq to_hex
normalize-digits b rest byte all_bytes len prefix =
    let len_hex : length (to_hex (b ∷ rest)) ≡ 66 = omega (arith, length-to_hex (b ∷ rest)) in
    rw
      (
        strip0x-to_prefixed_hex (b ∷ rest),
        is_hex-to_hex (b ∷ rest) (byte, all_bytes),
        len_hex,
        prefix,
        buffer_from_hex-to_hex (b ∷ rest) (byte, all_bytes),
      )
      refl

pub normalize_compressed_pub_key-to_prefixed_hex :
    (key : Bytes)
    → IsCompressedKey key
    → normalize_compressed_pub_key (to_prefixed_hex key) ≡ ok key
unfolding text_eq hex_digit
normalize_compressed_pub_key-to_prefixed_hex [] is_key = absurd is_key
normalize_compressed_pub_key-to_prefixed_hex (b ∷ rest) (prefix, all_bytes, len) = elim prefix [
  | inl two ↦ normalize-digits b rest (omega arith) all_bytes len (rw (two) refl)
  | inr three ↦ normalize-digits b rest (omega arith) all_bytes len (rw (three) refl)
]

pub length-IsCompressedKey : (key : Bytes) → IsCompressedKey key → length key ≡ 33
length-IsCompressedKey [] is_key = absurd is_key
length-IsCompressedKey (b ∷ rest) (prefix, all_bytes, len) = omega arith

pub IsCompressedKey-IsByte : (key : Bytes) → IsCompressedKey key → All IsByte key
IsCompressedKey-IsByte [] is_key = absurd is_key
IsCompressedKey-IsByte (b ∷ rest) (prefix, all_bytes, len) = elim prefix [
  | inl two ↦ (omega arith, all_bytes)
  | inr three ↦ (omega arith, all_bytes)
]
