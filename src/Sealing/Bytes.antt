-- ===== src/Sealing/Bytes.antt =====
-- encryption.ts: bytes, their hexadecimal texts, and the two bytes of a length. A buffer is a list of
-- numbers below 256; `Buffer.from(text, 'hex')` stops at the first pair that is not hexadecimal.
pub mod Laws
use cbdc_tokenization_sandbo.Prelude.{
  Bool, List, Option, Result, Text, [], all, case_option, codes, err, failure, false, if◌then◌else◌,
  leb, length, ltb, none, not, ok, out_of_range, some, take, text_eq, true, ℕ, ◌%◌, ◌&&◌, ◌*◌, ◌+◌,
  ◌-◌, ◌/◌, ◌<◌, ◌==◌, ◌||◌, ◌∷◌,
}

abbrev pub Bytes : Type 0
Bytes = List ℕ

abbrev pub IsByte : ℕ → Type 0
IsByte b = b < 256

abbrev pub throw_error {ℓ} : {A : Type ℓ} → Text → Result A
throw_error message = err (failure message)

unfoldable pub hex_value : ℕ → Option ℕ
hex_value c =
    if leb b'0' c && leb c b'9'
    then some (c - b'0')
    else if leb b'a' c && leb c b'f'
    then some (c - b'a' + 10)
    else if leb b'A' c && leb c b'F'
    then some (c - b'A' + 10)
    else none

abbrev pub hex_pair : ℕ → ℕ → Option ℕ
hex_pair c d =
    case_option (hex_value c) none
      (λ high. case_option (hex_value d) none (λ low. some (high * 16 + low)))

-- `Buffer.from(text, 'hex')`
unfoldable pub buffer_from_hex : Text → Bytes
unfolding hex_value
buffer_from_hex [] = []
buffer_from_hex (c ∷ []) = []
buffer_from_hex (c ∷ d ∷ text) =
    let rest = buffer_from_hex text in case_option (hex_pair c d) [] (λ b. b ∷ rest)

unfoldable pub hex_digit : ℕ → ℕ
hex_digit n = if ltb n 10 then b'0' + n else b'a' + n - 10

-- `buffer.toString('hex')`
unfoldable pub to_hex : Bytes → Text
unfolding hex_digit
to_hex [] = []
to_hex (b ∷ bytes) = hex_digit (b / 16) ∷ hex_digit (b % 16) ∷ to_hex bytes

unfoldable pub strip0x : Text → Text
strip0x (c ∷ d ∷ text) = if c == b'0' && d == b'x' then text else c ∷ d ∷ text
strip0x text = text

unfoldable pub to_prefixed_hex : Bytes → Text
unfolding to_hex
to_prefixed_hex bytes = b'0' ∷ b'x' ∷ to_hex bytes

unfoldable pub u16_from_length : ℕ → Result Bytes
u16_from_length len = if ltb 65535 len then err out_of_range else ok (len / 256 ∷ len % 256 ∷ [])

-- The number, and the bytes after it.
unfoldable pub read_uint16_be : Bytes → Result (ℕ × Bytes)
read_uint16_be (high ∷ low ∷ rest) = ok (high * 256 + low, rest)
read_uint16_be _ = err out_of_range

unfoldable pub is_hex : Text → Bool
unfolding hex_value
is_hex text = all (λ c. case_option (hex_value c) false (λ _. true)) text

-- `string | Uint8Array`
pub data BytesOrText : Type 0 where
  text_value : Text → BytesOrText
  bytes_value : Bytes → BytesOrText

unfoldable pub ensure_bytes : BytesOrText → Result Bytes
unfolding strip0x buffer_from_hex is_hex
ensure_bytes (text_value value) =
    if is_hex (strip0x value)
    then ok (buffer_from_hex (strip0x value))
    else throw_error (codes "invalid hex input")
ensure_bytes (bytes_value bytes) = ok bytes

unfoldable pub normalize_private_key : Text → Result Bytes
unfolding strip0x buffer_from_hex is_hex
normalize_private_key value =
    let hex = strip0x value in
    if not (is_hex hex && ltb 0 (length hex))
    then throw_error (codes "private key must be hex-encoded")
    else if not (length hex == 64)
    then throw_error (codes "private key must be 32 bytes hex")
    else ok (buffer_from_hex hex)

unfoldable pub normalize_compressed_pub_key : Text → Result Bytes
unfolding strip0x buffer_from_hex is_hex
normalize_compressed_pub_key value =
    let hex = strip0x value in
    let prefix = take 2 hex in
    if not (is_hex hex && ltb 0 (length hex))
    then throw_error (codes "public key must be hex-encoded")
    else if not (length hex == 66)
    then throw_error (codes "compressed public key must be 33 bytes hex")
    else if not (text_eq prefix (codes "02") || text_eq prefix (codes "03"))
    then throw_error (codes "compressed public key must start with 02 or 03")
    else ok (buffer_from_hex hex)
