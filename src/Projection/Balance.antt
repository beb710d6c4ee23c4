-- ===== src/Projection/Balance.antt =====
-- projection/balance-reducer.ts: one ERC-1410 `TransferByPartition` event as changes of balances.
pub mod Laws
use cbdc_tokenization_sandbo.Prelude.{
  List, Text, [], codes, if◌then◌else◌, neg, text_eq, to_lower_case, ℤ, ◌∷◌,
}

unfoldable pub zero_address : Text
zero_address = codes "0x0000000000000000000000000000000000000000"

pub data TransferKind : Type 0 where
  mint burn transfer : TransferKind

pub record TransferBalanceDelta : Type 0 where
  pub holder : Text
  pub delta : ℤ
  pub kind : TransferKind

abbrev pub change : Text → ℤ → TransferKind → TransferBalanceDelta
change holder delta kind = record { holder = holder; delta = delta; kind = kind }

-- The two addresses in lower case.
reduce_lowered : Text → Text → ℤ → List TransferBalanceDelta
reduce_lowered from to value =
    if text_eq from to
    then []
    else if text_eq from zero_address
    then (if text_eq to zero_address then [] else change to value mint ∷ [])
    else if text_eq to zero_address
    then change from (neg value) burn ∷ []
    else change from (neg value) transfer ∷ change to value transfer ∷ []

unfoldable pub reduce_partition_transfer : Text → Text → ℤ → List TransferBalanceDelta
unfolding reduce_lowered
reduce_partition_transfer from to value =
    reduce_lowered (to_lower_case from) (to_lower_case to) value
