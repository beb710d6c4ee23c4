-- ===== src/Examples/Service.antt =====
-- Theorems on the service at one input each.
use cbdc_tokenization_sandbo.Service.LiveEvents.{step, subscribes, start}
use cbdc_tokenization_sandbo.Service.Health.Laws.{severity}
use mathlib.Core.Bool.{true}
use cbdc_tokenization_sandbo.Prelude.{
  Bool, [], arith, pos, refl, some, ℕ, ◌-ℤ◌, ◌↔◌, ◌∷◌, ◌≡◌, ◌≤ℤ◌, ◌≤◌,
}
use cbdc_tokenization_sandbo.Service.LiveEvents.{
  Frame, LiveEventBroadcaster, new_broadcaster, perform, subscribe,
}
use cbdc_tokenization_sandbo.Service.Health.{
  ChainProbe, IngestionStatus, above, compute_lag, derive_status, lag_degraded_blocks, ok_status,
  stale_degraded_ms, tick_age,
}
use cbdc_tokenization_sandbo.Service.Health.Laws.{derive_status-ok, derive_status-stale}
use cbdc_tokenization_sandbo.Service.LiveEvents.Laws.{IsTidy, Reachable-IsTidy}
use cbdc_tokenization_sandbo.Database.Table.{has_row}

abbrev takes_all : ℕ → Frame → Bool
takes_all _ _ = true

abbrev joined : LiveEventBroadcaster
joined = perform takes_all (subscribes 4) new_broadcaster

Reachable-IsTidy_example : IsTidy joined
Reachable-IsTidy_example =
    Reachable-IsTidy takes_all joined (step (subscribes 4) new_broadcaster start)

joined_runs : joined ≡ record { subscribers = 4 ∷ []; timer_runs = true }
unfolding perform subscribe has_row
joined_runs = refl

abbrev chain_up : ChainProbe
chain_up = record { chain_id = some (pos 1337); head = some (pos 20); head_reachable = true }

abbrev caught_up : IngestionStatus
caught_up = record {
  loop_running = true;
  last_tick_at = some (pos 1000);
  consecutive_failures = 0;
  last_block_processed = some (pos 18);
}

derive_status-ok_example : (derive_status chain_up caught_up (pos 9000) ≡ ok_status) ↔ (
    (true ≡ true)
    × (true ≡ true)
    × (caught_up.consecutive_failures ≡ 0)
    × (pos 9000 -ℤ pos 1000 ≤ℤ stale_degraded_ms)
    × (pos 20 -ℤ pos 18 ≤ℤ lag_degraded_blocks))
derive_status-ok_example =
    derive_status-ok chain_up caught_up (pos 9000) (pos 20) (pos 18) (pos 1000) refl refl refl

chain_up_ok : derive_status chain_up caught_up (pos 9000) ≡ ok_status
unfolding derive_status above tick_age compute_lag ◌-ℤ◌
chain_up_ok = refl

derive_status-stale_example :
    severity (derive_status chain_up caught_up (pos 9000))
    ≤ severity (derive_status chain_up caught_up (pos 99000))
derive_status-stale_example =
    derive_status-stale chain_up caught_up (pos 9000) (pos 99000) (omega arith)
