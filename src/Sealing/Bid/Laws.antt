-- ===== src/Sealing/Bid/Laws.antt =====
-- bid.ts: what the service knows of a bid that it unsealed.
use mathlib.Core.Path.{subst}
use cbdc_tokenization_sandbo.Prelude.{
  &&-true, >>=-eq-ok, All, Bool, Bool-cases, Holds, Holds-any, Holds-ok, Option, Text, [], all,
  arith, case_option, case_option-eq-ok, case_result-holds, err, false, get_or, if◌then◌else◌, inl,
  inr, length, ltb, none, not, ok, ok-injective, pos, refl, some, some-injective, text_eq,
  text_eq_iff, throw_if-eq-ok, to_lower_case, true, ℕ, ◌&&◌, ◌<◌, ◌∷◌, ◌≡◌,
}
use cbdc_tokenization_sandbo.Allocation.{BidPlaintext, Role, UnsealedBid}
use cbdc_tokenization_sandbo.Parsing.{Value, parse_bigint}
use cbdc_tokenization_sandbo.Parsing.Decimal.{IsDigit, IsDigits, parse_bigint-digits}
use cbdc_tokenization_sandbo.Sealing.Encryption.{
  DecryptBidResult, GeneratedKeypair, Json, Packages, decrypt_bid, first_unwrapped,
  hash_bid_plaintext, no_wrap_opens, role_order,
}
use cbdc_tokenization_sandbo.Sealing.Schema.{
  is_bid_plaintext, is_bigint_string, is_decimal_digit, is_hex_of_length,
}
use cbdc_tokenization_sandbo.Sealing.Bid.{
  SealedBid, accept_bid, check_bid, get_sealing_keypair, safe_parse, unseal_bid,
}
use cbdc_tokenization_sandbo.Sealing.Bytes.{buffer_from_hex, strip0x}
use cbdc_tokenization_sandbo.Sealing.Envelope.{parse_ciphertext}

all-IsDigit : (t : Text) → all is_decimal_digit t ≡ true → All IsDigit t
all-IsDigit [] e = tt
all-IsDigit (c ∷ t) e =
    let (digit, rest) = &&-true (is_decimal_digit c) (all is_decimal_digit t) e in
    (ground arith, all-IsDigit t rest)

pub is_bigint_string-IsDigits : (t : Text) → is_bigint_string t ≡ true → IsDigits t
unfolding is_bigint_string
is_bigint_string-IsDigits [] e = absurd cc
is_bigint_string-IsDigits (c ∷ t) e =
    all-IsDigit (c ∷ t) (&&-true (ltb 0 (length (c ∷ t))) (all is_decimal_digit (c ∷ t)) e).1

-- The same text but for the case of letters.
abbrev pub SameText : Text → Text → Type 0
SameText a b = to_lower_case a ≡ to_lower_case b

-- A text that `parseBigInt` reads as a number that is not negative.
abbrev pub IsNumeric : Text → Type 0
IsNumeric t = (n : ℕ) × ((field : Text) → parse_bigint (Value.string t) field ≡ ok (pos n))

not-false : (b : Bool) → not b ≡ false → b ≡ true
not-false b e = ground arith

passes_schema :
    (o : Option BidPlaintext) (plaintext : BidPlaintext)
    → case_option o none (λ p. if is_bid_plaintext p then some p else none) ≡ some plaintext
    → is_bid_plaintext plaintext ≡ true
passes_schema none plaintext e = absurd cc
passes_schema (some p) plaintext e = elim (Bool-cases (is_bid_plaintext p)) [
  | inl valid ↦
      let same : some p ≡ some plaintext = rw (valid) at e in
      subst (λ q. is_bid_plaintext q ≡ true) (some-injective same) valid
  | inr invalid ↦ let impossible : none ≡ some plaintext = rw (invalid) at e in absurd cc
]

passed_object :
    (o : Option BidPlaintext) (plaintext : BidPlaintext)
    → case_option o none (λ p. if is_bid_plaintext p then some p else none) ≡ some plaintext
    → o ≡ some plaintext
passed_object none plaintext e = absurd cc
passed_object (some p) plaintext e = elim (Bool-cases (is_bid_plaintext p)) [
  | inl valid ↦ let same : some p ≡ some plaintext = rw (valid) at e in same
  | inr invalid ↦ let impossible : none ≡ some plaintext = rw (invalid) at e in absurd cc
]

module _ {Field : Type 0} (packages : Packages Field)
    (object_of : Json Field → Option BidPlaintext) where
  -- What is known of an unsealed bid: it is the sealed one; its plaintext is what a document says whose
  -- hash, with the signature left out, is the one that is committed and kept with the bid; it is for
  -- this ISIN and by this bidder and signed, its rate and units are numbers, and the hash of the
  -- ciphertext is that of the bytes of the sealed bid.
  abbrev pub IsBoundTo : Text → SealedBid → UnsealedBid → Type 0
  IsBoundTo isin bid unsealed =
      (unsealed.bidder ≡ bid.bidder)
      × (unsealed.ciphertext ≡ bid.ciphertext)
      × SameText unsealed.plaintext_hash bid.plaintext_hash
      × (unsealed.plaintext.isin ≡ isin)
      × SameText unsealed.plaintext.bidder bid.bidder
      × (0 < length unsealed.plaintext.bidder_sig)
      × IsNumeric unsealed.plaintext.rate
      × IsNumeric unsealed.plaintext.units
      × (unsealed.ciphertext_hash ≡ packages.keccak256 (buffer_from_hex (strip0x bid.ciphertext)))
      × ((document : Json Field) × (object_of document ≡ some unsealed.plaintext)
          × (hash_bid_plaintext packages document ≡ ok unsealed.plaintext_hash))

  safe_parse-object :
      (document : Json Field) (plaintext : BidPlaintext)
      → safe_parse packages object_of document ≡ some plaintext
      → object_of document ≡ some plaintext
  unfolding safe_parse
  safe_parse-object document plaintext e = passed_object (object_of document) plaintext e

  -- The hashes that `decryptBid` returns are those of the document and of the blob.
  abbrev IsHashed : Text → DecryptBidResult (Json Field) → Type 0
  IsHashed ciphertext result =
      (hash_bid_plaintext packages result.plaintext ≡ ok result.plaintext_hash)
      × (result.ciphertext_hash ≡ packages.keccak256 (buffer_from_hex (strip0x ciphertext)))

  decrypt_bid-IsHashed :
      (ciphertext private_key : Text) (role : Option Role)
      → Holds (IsHashed ciphertext) (decrypt_bid packages ciphertext private_key role)
  unfolding decrypt_bid
  decrypt_bid-IsHashed ciphertext private_key role =
      Holds-any (IsHashed ciphertext) (parse_ciphertext ciphertext) _ (λ parts.
        Holds-any (IsHashed ciphertext)
          (case_option (first_unwrapped packages private_key parts (role_order role))
            (err no_wrap_opens) ok)
          _
          (λ opened.
            Holds-any (IsHashed ciphertext)
              (packages.aes_decrypt opened.0 parts.sym_nonce parts.sym_ciphertext parts.sym_tag) _
              (λ bytes. Holds-any (IsHashed ciphertext) (packages.parse_json bytes) _ (λ document.
                case_result-holds (Holds (IsHashed ciphertext))
                  (hash_bid_plaintext packages document) (λ e _. tt)
                  (λ hash hashed. (hashed, refl))))))

  safe_parse-numbers :
      (document : Json Field) (plaintext : BidPlaintext)
      → safe_parse packages object_of document ≡ some plaintext
      → IsNumeric plaintext.rate × IsNumeric plaintext.units
  unfolding safe_parse is_bid_plaintext
  safe_parse-numbers document plaintext e =
      let valid : is_bid_plaintext plaintext ≡ true =
        passes_schema (object_of document) plaintext e in
      let (numbers, others) =
        &&-true (is_hex_of_length 40 plaintext.bidder && is_bigint_string plaintext.rate) _ valid in
      let (address, rate_text) = &&-true (is_hex_of_length 40 plaintext.bidder) _ numbers in
      let (more, sig) =
        &&-true (is_bigint_string plaintext.units && is_bigint_string plaintext.bidder_nonce) _
          others in
      let (units_text, nonce) = &&-true (is_bigint_string plaintext.units) _ more in
      (
        parse_bigint-digits plaintext.rate (is_bigint_string-IsDigits plaintext.rate rate_text),
        parse_bigint-digits plaintext.units (is_bigint_string-IsDigits plaintext.units units_text),
      )

  passed : (a b : Text) → not (text_eq a b) ≡ false → a ≡ b
  passed a b e = (text_eq_iff a b).0 (not-false (text_eq a b) e)

  check_bid-IsBoundTo :
      (isin : Text) (bid : SealedBid) (index : ℕ) (result : DecryptBidResult (Json Field))
      (validated : BidPlaintext) (unsealed : UnsealedBid)
      → IsNumeric validated.rate
      → IsNumeric validated.units
      → object_of result.plaintext ≡ some validated
      → hash_bid_plaintext packages result.plaintext ≡ ok result.plaintext_hash
      → result.ciphertext_hash ≡ packages.keccak256 (buffer_from_hex (strip0x bid.ciphertext))
      → check_bid packages isin bid index result validated ≡ ok unsealed
      → IsBoundTo isin bid unsealed
  unfolding check_bid
  check_bid-IsBoundTo isin bid index result validated unsealed rate_reads units_reads is_object
        hashed blob_hashed e =
      let (same_hash, e1) = throw_if-eq-ok _ _ _ e in
      let (same_isin, e2) = throw_if-eq-ok _ _ _ e1 in
      let (same_bidder, e3) = throw_if-eq-ok _ _ _ e2 in
      let (signed, e4) = throw_if-eq-ok _ _ _ e3 in
      subst (IsBoundTo isin bid) (ok-injective e4) (
        refl,
        refl,
        passed _ _ same_hash,
        passed _ _ same_isin,
        passed _ _ same_bidder,
        ground arith,
        rate_reads,
        units_reads,
        blob_hashed,
        (result.plaintext, is_object, hashed),
      )

  -- A bid that `unsealBid` returns is the sealed bid that it was given. Its plaintext is what a document
  -- says whose hash, with the signature left out, is the hash that the contract holds, but for the case
  -- of letters; it names this ISIN and this bidder and is signed, and `parseBigInt` reads its rate and
  -- its units as numbers that are not negative. The hash of the ciphertext is that of its bytes.
  pub unseal_bid-IsBoundTo :
      (keypair : Option GeneratedKeypair) (isin : Text) (bid : SealedBid) (index : Option ℕ)
      (unsealed : UnsealedBid)
      → unseal_bid packages object_of keypair isin bid index ≡ ok unsealed
      → IsBoundTo isin bid unsealed
  unfolding unseal_bid accept_bid
  unseal_bid-IsBoundTo keypair isin bid index unsealed e =
      let (sealing, _, e1) = >>=-eq-ok (get_sealing_keypair keypair) _ e in
      let (result, decrypts, e2) =
        >>=-eq-ok (decrypt_bid packages bid.ciphertext sealing.private_key (some Role.auctioneer))
          (accept_bid packages object_of isin bid (get_or index 0)) e1 in
      let (validated, is_valid, e3) =
        case_option-eq-ok (safe_parse packages object_of result.plaintext) _
          (check_bid packages isin bid (get_or index 0) result) e2 in
      let (rate_reads, units_reads) = safe_parse-numbers result.plaintext validated is_valid in
      let (hashed, blob_hashed) =
        Holds-ok (IsHashed bid.ciphertext)
          (decrypt_bid-IsHashed bid.ciphertext sealing.private_key (some Role.auctioneer))
          decrypts in
      check_bid-IsBoundTo isin bid (get_or index 0) result validated unsealed rate_reads units_reads
        (safe_parse-object result.plaintext validated is_valid) hashed blob_hashed e3
