-- ===== src/Examples/Sealing.antt =====
-- A run of the sealed bids: libraries that stand for the real ones, and one bid.
use mathlib.Core.Path.{subst}
use cbdc_tokenization_sandbo.Prelude.{
  &&-true, All, Text, [], all, ap, ap₂, arith, inl, length, ltb, ltb→lt, ok, ok-injective, refl,
  suc, sym, take, true, zero, ℕ, ◌%◌, ◌++◌, ◌+◌, ◌∙◌, ◌∷◌, ◌≡◌,
}
use cbdc_tokenization_sandbo.Sealing.Bytes.{
  Bytes, IsByte, buffer_from_hex, strip0x, to_prefixed_hex,
}
use cbdc_tokenization_sandbo.Sealing.Envelope.{
  CiphertextParts, KeyWrap, pack_ciphertext, pack_key_wrap, parse_ciphertext,
}
use cbdc_tokenization_sandbo.Sealing.Envelope.Inverse.{pack_ciphertext-parse}
use cbdc_tokenization_sandbo.Sealing.Envelope.Laws.{
  AreBytes, IsEnvelope, blob_of, parse_ciphertext-blob_of, parse_ciphertext-pack_ciphertext,
}
use cbdc_tokenization_sandbo.Sealing.Encryption.{Json, Packages}
use cbdc_tokenization_sandbo.Sealing.Encryption.Laws.{IsDocumented}
use cbdc_tokenization_sandbo.Sealing.Bytes.Laws.{IsCompressedKey}

abbrev pub copies : ℕ → ℕ → Bytes
copies zero b = []
copies (suc n) b = b ∷ copies n b

pub all-IsByte : (bytes : Bytes) → all (λ (b : ℕ). ltb b 256) bytes ≡ true → All IsByte bytes
all-IsByte [] e = tt
all-IsByte (b ∷ bytes) e =
    let (small, rest) = &&-true (ltb b 256) (all (λ (c : ℕ). ltb c 256) bytes) e in
    (ltb→lt b 256 small, all-IsByte bytes rest)

abbrev wrap_example : ℕ → KeyWrap
wrap_example b = record {
  ephemeral_public_key = copies 33 b;
  nonce = copies 12 1;
  ciphertext = copies 32 2;
  auth_tag = copies 16 3;
}

abbrev parts_example : CiphertextParts
parts_example = record {
  version = 1;
  auctioneer_wrap = wrap_example 4;
  bidder_wrap = wrap_example 5;
  sym_nonce = copies 12 6;
  sym_ciphertext = 10 ∷ 255 ∷ [];
  sym_tag = copies 16 7;
}

parts_example-IsEnvelope : IsEnvelope parts_example
parts_example-IsEnvelope = (
  omega arith,
  (refl, refl, refl, omega arith, omega arith),
  (refl, refl, refl, omega arith, omega arith),
  refl,
  refl,
)

parts_example-AreBytes : AreBytes parts_example
parts_example-AreBytes = (
  all-IsByte (pack_key_wrap (wrap_example 4)) refl,
  all-IsByte (pack_key_wrap (wrap_example 5)) refl,
  all-IsByte (copies 12 6 ++ (copies 16 7 ++ 10 ∷ 255 ∷ [])) refl,
)

parse_ciphertext-pack_ciphertext_example :
    (blob : Bytes) × (pack_ciphertext parts_example ≡ ok blob)
    × (parse_ciphertext (to_prefixed_hex blob) ≡ ok parts_example)
parse_ciphertext-pack_ciphertext_example =
    parse_ciphertext-pack_ciphertext parts_example parts_example-IsEnvelope parts_example-AreBytes

pack_ciphertext-parse_example :
    IsEnvelope parts_example
    × (pack_ciphertext parts_example
        ≡ ok (buffer_from_hex (strip0x (to_prefixed_hex (blob_of parts_example)))))
pack_ciphertext-parse_example =
    pack_ciphertext-parse (to_prefixed_hex (blob_of parts_example)) parts_example
      (parse_ciphertext-blob_of parts_example parts_example-IsEnvelope parts_example-AreBytes)

-- Libraries that keep the documented laws: one key, and a cipher that adds one to every byte.
abbrev shifted : Bytes → Bytes
shifted [] = []
shifted (b ∷ bytes) = (b + 1) % 256 ∷ shifted bytes

abbrev unshifted : Bytes → Bytes
unshifted [] = []
unshifted (b ∷ bytes) = (b + 255) % 256 ∷ unshifted bytes

unshifted-shifted : (bytes : Bytes) → All IsByte bytes → unshifted (shifted bytes) ≡ bytes
unshifted-shifted [] h = refl
unshifted-shifted (b ∷ bytes) h = ap₂ ◌∷◌ (omega arith) (unshifted-shifted bytes h.1)

shifted-IsByte : (bytes : Bytes) → All IsByte (shifted bytes)
shifted-IsByte [] = tt
shifted-IsByte (b ∷ bytes) = (omega arith, shifted-IsByte bytes)

length-shifted : (bytes : Bytes) → length (shifted bytes) ≡ length bytes
length-shifted [] = refl
length-shifted (b ∷ bytes) = ap suc (length-shifted bytes)

abbrev pub key_example : Bytes
key_example = 2 ∷ copies 32 9

abbrev pub bid_example : Json Text → Packages Text
bid_example read = record {
  get_public_key = λ priv. ok key_example;
  get_shared_secret = λ priv key. ok (0 ∷ key);
  sha256 = λ bytes. copies 32 8;
  aes_encrypt = λ key nonce plaintext. ok (shifted plaintext, copies 16 0);
  aes_decrypt = λ key nonce ciphertext tag. ok (unshifted ciphertext);
  keccak256 = λ bytes. to_prefixed_hex (take 4 bytes);
  text_field = λ text. text;
  stringify = λ fields. b'{' ∷ b'}' ∷ [];
  stringify_rest = λ value. ok (b'[' ∷ b']' ∷ []);
  parse_json = λ bytes. ok read;
}

pub bid_example-IsDocumented : (read : Json Text) → IsDocumented (bid_example read)
bid_example-IsDocumented read = record {
  public_key = λ priv key is_key.
      subst IsCompressedKey (ok-injective is_key) (inl refl, all-IsByte (copies 32 9) refl, refl);
  shared_secret = λ a b key_a key_b is_a is_b.
      (0 ∷ key_b, refl, ap (λ k. ok (0 ∷ k)) (sym (ok-injective is_a) ∙ ok-injective is_b));
  sha256 = λ bytes. refl;
  aes = λ key nonce plaintext key_len nonce_len all_bytes. (
    shifted plaintext,
    copies 16 0,
    refl,
    ap ok (unshifted-shifted plaintext all_bytes),
    length-shifted plaintext,
    shifted-IsByte plaintext,
    refl,
    all-IsByte (copies 16 0) refl,
  );
}
