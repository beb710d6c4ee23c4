-- ===== src/Prelude/Results.antt =====
-- Exceptions as values: the errors that the modelled code throws, and the result of a call.
use Prim.Native.Nat.{ℕ}
use mathlib.Core.Path.{refl, subst, ◌≡◌}
use mathlib.Core.Logic.{inl, inr, ◌⊎◌}
use mathlib.Core.Bool.{Bool, false, true}
use mathlib.Core.Option.{Option, none, some}
use mathlib.Core.List.{List, [], ◌∷◌}
use cbdc_tokenization_sandbo.Prelude.Tests.{case_option, if◌then◌else◌}
use cbdc_tokenization_sandbo.Prelude.Strings.{Text}

pub data Error : Type 0 where
  -- parsing: the field that is named in the message
  must_be_numeric must_be_positive : Text → Error
  -- allocation
  use_buyback_allocation offering_must_be_positive buyback_size_must_be_positive : Error
  no_allocatable_bids : Error
  -- projection: the ISIN, the block
  negative_projected_supply : Text → Error
  missing_source_block missing_checkpoint_block : ℕ → Error
  -- database
  invalid_chain_identity unbound_legacy_checkpoint chain_identity_mismatch : Error
  unique_violation : Error
  -- composition
  unsupported_auction_status unsupported_auction_type : Text → Error
  dependency_unavailable : Text → Error
  -- `new Error(message)`, and an index outside a buffer
  failure : Text → Error
  out_of_range : Error
  -- a fault that a library or the network reports
  external : Text → Error

-- A call that throws is `err`.
pub data Result {κ} (B : Type κ) : Type κ where
  err : Error → Result B
  ok : B → Result B

-- The two cases of a result.
abbrev pub case_result {ℓ κ} : {A : Type ℓ} {B : Type κ} → Result A → (Error → B) → (A → B) → B
case_result (err e) fe fa = fe e
case_result (ok a) fe fa = fa a

-- `if (c) throw e;`
abbrev pub throw_if : Bool → Error → Result (Unit {0})
throw_if thrown error = if thrown then err error else ok tt

-- The statements after a call run on what it returns.
infixl 5 ◌>>=◌ ◌>>◌
abbrev pub ◌>>=◌ {κ ℓ} : {B : Type κ} {A : Type ℓ} → Result B → (B → Result A) → Result A
call >>= next = case_result call err next

abbrev pub ◌>>◌ {κ} : {B : Type κ} → Result (Unit {0}) → Result B → Result B
check >> next = case_result check err (λ _. next)

-- What returns came through both steps.
pub >>=-eq-ok {κ ℓ} :
    {B : Type κ} {A : Type ℓ} (call : Result B) (next : B → Result A) {a : A}
    → (call >>= next) ≡ ok a
    → (b : B) × (call ≡ ok b) × (next b ≡ ok a)
>>=-eq-ok (err e) next returned = cc
>>=-eq-ok (ok b) next returned = (b, refl, returned)

module _ {ℓ} {A : Type ℓ} where
  -- the elements in order, or the first error
  abbrev pub sequence_map {κ} : {B : Type κ} → (B → Result A) → List B → Result (List A)
  sequence_map f [] = ok []
  sequence_map f (x ∷ xs) = do a ← f x; rest ← sequence_map f xs; ok (a ∷ rest)

-- `P` holds of the value, if there is one.
abbrev pub Holds {ℓ κ} : {A : Type ℓ} → (A → Type κ) → Result A → Type κ
Holds P (ok a) = P a
Holds P (err _) = Unit

module _ {ℓ κ μ ν} {A : Type ℓ} {B : Type κ} (P : A → Type μ) (Q : B → Type ν) where
  pub Holds-bind :
      (m : Result A) (f : A → Result B)
      → Holds P m
      → ((a : A) → P a → Holds Q (f a))
      → Holds Q (m >>= f)
  Holds-bind (ok a) f h k = k a h
  Holds-bind (err e) f h k = tt

pub Holds-ok {ℓ κ} :
    {A : Type ℓ} (P : A → Type κ) {m : Result A} {a : A} → Holds P m → m ≡ ok a → P a
Holds-ok P h e = subst (Holds P) e h

pub Holds-any {ℓ κ ν} :
    {A : Type ℓ} {B : Type κ} (Q : B → Type ν) (m : Result A) (f : A → Result B)
    → ((a : A) → Holds Q (f a))
    → Holds Q (m >>= f)
Holds-any Q (ok a) f k = k a
Holds-any Q (err e) f k = tt

pub Holds-map {ℓ μ ν} :
    {A : Type ℓ} (P : A → Type μ) (Q : A → Type ν) (m : Result A)
    → Holds P m
    → ((a : A) → P a → Q a)
    → Holds Q m
Holds-map P Q (ok a) h k = k a h
Holds-map P Q (err e) h k = tt

-- What holds of both cases of a result.
pub case_result-holds {ℓ κ μ} :
    {A : Type ℓ} {B : Type κ} (P : B → Type μ) (m : Result A) {fe : Error → B} {fa : A → B}
    → ((e : Error) → m ≡ err e → P (fe e))
    → ((a : A) → m ≡ ok a → P (fa a))
    → P (case_result m fe fa)
case_result-holds P (ok a) he ha = ha a refl
case_result-holds P (err e) he ha = he e refl

pub Holds-both {ℓ μ ν} :
    {A : Type ℓ} (P : A → Type μ) (Q : A → Type ν) (m : Result A)
    → Holds P m
    → Holds Q m
    → Holds (λ a. P a × Q a) m
Holds-both P Q (ok a) p q = (p, q)
Holds-both P Q (err e) p q = tt

module _ {ℓ} {A : Type ℓ} where
  pub ok-injective : {a b : A} → ok a ≡ ok b → a ≡ b
  ok-injective e = cc

  -- What returns after `if (c) throw e;` passed the test.
  pub if_thrown-eq-ok :
      (thrown : Bool) (e : Error) {m : Result A} {a : A}
      → (if thrown then err e else m) ≡ ok a
      → (thrown ≡ false) × (m ≡ ok a)
  if_thrown-eq-ok true e returned = absurd cc
  if_thrown-eq-ok false e returned = (refl, returned)

  pub throw_if-eq-ok :
      (thrown : Bool) (e : Error) (m : Result A) {a : A}
      → (throw_if thrown e >> m) ≡ ok a
      → (thrown ≡ false) × (m ≡ ok a)
  throw_if-eq-ok true e m returned = absurd cc
  throw_if-eq-ok false e m returned = (refl, returned)

pub case_option-eq-ok {ℓ κ} :
    {A : Type ℓ} {B : Type κ} (o : Option A) (e : Error) (f : A → Result B) {b : B}
    → case_option o (err e) f ≡ ok b
    → (a : A) × (o ≡ some a) × (f a ≡ ok b)
case_option-eq-ok none e f returned = absurd cc
case_option-eq-ok (some a) e f returned = (a, refl, returned)

pub Result-cases {ℓ} :
    {A : Type ℓ} (m : Result A) → ((e : Error) × (m ≡ err e)) ⊎ ((a : A) × (m ≡ ok a))
Result-cases (err e) = inl (e, refl)
Result-cases (ok a) = inr (a, refl)
