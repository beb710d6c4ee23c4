-- ===== src/Sealing/Schema.antt =====
-- contracts/common.ts and contracts/bids.ts: the schema of a bid's plaintext. The regular
-- expressions are tests on texts; that a document is an object with eight strings is the library's part.
use cbdc_tokenization_sandbo.Prelude.{
  Bool, Text, all, false, leb, length, ltb, ℕ, ◌&&◌, ◌+◌, ◌==◌, ◌∷◌,
}
use cbdc_tokenization_sandbo.Allocation.{BidPlaintext}
use cbdc_tokenization_sandbo.Sealing.Bytes.{is_hex}

-- `/^0x[a-fA-F0-9]+$/`
unfoldable pub is_hex_string : Text → Bool
unfolding is_hex
is_hex_string (c ∷ d ∷ digits) =
    (c == b'0' && d == b'x') && (ltb 0 (length digits) && is_hex digits)
is_hex_string _ = false

-- `/^0x[a-fA-F0-9]{n}$/`
unfoldable pub is_hex_of_length : ℕ → Text → Bool
unfolding is_hex_string
is_hex_of_length n text = is_hex_string text && (length text == n + 2)

abbrev pub is_decimal_digit : ℕ → Bool
is_decimal_digit c = leb b'0' c && leb c b'9'

-- `/^[0-9]+$/`: the schema of a bigint text and that of basis points
unfoldable pub is_bigint_string : Text → Bool
is_bigint_string text = ltb 0 (length text) && all is_decimal_digit text

unfoldable pub is_bid_plaintext : BidPlaintext → Bool
unfolding is_hex_of_length is_bigint_string is_hex_string
is_bid_plaintext plaintext =
    (is_hex_of_length 40 plaintext.bidder && is_bigint_string plaintext.rate)
    && ((is_bigint_string plaintext.units && is_bigint_string plaintext.bidder_nonce)
        && is_hex_string plaintext.bidder_sig)
