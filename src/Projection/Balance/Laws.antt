-- ===== src/Projection/Balance/Laws.antt =====
-- projection/balance-reducer.ts: the changes of a transfer as double entry.
use cbdc_tokenization_sandbo.Prelude.{
  List, Text, [], if◌then◌else◌, int_laws, pos, text_eq, text_eq_iff, to_lower_case, ℤ, ◌+ℤ◌, ◌-ℤ◌,
  ◌∷◌, ◌≡◌,
}
use cbdc_tokenization_sandbo.Projection.Balance.{
  TransferBalanceDelta, reduce_lowered, reduce_partition_transfer, zero_address,
}

-- What a list of changes does to one holder, and to all of them together.
abbrev pub net_change : Text → List TransferBalanceDelta → ℤ
net_change h [] = pos 0
net_change h (d ∷ ds) = (if text_eq d.holder h then d.delta else pos 0) +ℤ net_change h ds

abbrev pub supply_change : List TransferBalanceDelta → ℤ
supply_change [] = pos 0
supply_change (d ∷ ds) = d.delta +ℤ supply_change ds

-- `value` if the account is the one named, else nothing.
abbrev pub part : Text → Text → ℤ → ℤ
part account named value = if text_eq account named then value else pos 0

double_entry :
    (sender recipient : Text) (value : ℤ) (h : Text)
    → let deltas = reduce_lowered sender recipient value in
      (net_change h deltas
        ≡ (if text_eq zero_address h then pos 0 else part recipient h value -ℤ part sender h value))
      × (supply_change deltas ≡ part sender zero_address value -ℤ part recipient zero_address value)
unfolding reduce_lowered
double_entry sender recipient value h = grind (
  int_laws,
  text_eq_iff sender recipient,
  text_eq_iff sender zero_address,
  text_eq_iff recipient zero_address,
  text_eq_iff zero_address h,
  text_eq_iff sender h,
  text_eq_iff recipient h,
)

-- A holder other than the zero address gains what it is sent and loses what it sends; the zero
-- address is never changed; and all changes together are what is minted less what is burned.
pub reduce_partition_transfer-double_entry :
    (from to : Text) (value : ℤ) (h : Text)
    → let deltas = reduce_partition_transfer from to value in
      let sender = to_lower_case from in
      let recipient = to_lower_case to in
      (net_change h deltas
        ≡ (if text_eq zero_address h then pos 0 else part recipient h value -ℤ part sender h value))
      × (supply_change deltas ≡ part sender zero_address value -ℤ part recipient zero_address value)
unfolding reduce_partition_transfer
reduce_partition_transfer-double_entry from to value h =
    double_entry (to_lower_case from) (to_lower_case to) value h
