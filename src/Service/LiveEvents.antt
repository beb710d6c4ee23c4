-- ===== src/Service/LiveEvents.antt =====
-- services/nb-bond-api/src/live-events.ts: the broadcaster of changes. A subscriber is a number, its
-- function a parameter: does it take the frame, or throw?
pub mod Laws
use cbdc_tokenization_sandbo.Prelude.{
  Bool, List, [], false, if◌then◌else◌, length, ltb, true, ℕ, ◌++◌, ◌==◌, ◌∷◌,
}
use cbdc_tokenization_sandbo.Database.Table.{delete_rows, has_row, select_rows}

pub data LiveResourceKey : Type 0 where
  auctions_key banking_key bidders_key bonds_key central_bank_key operations_key registry_key :
      LiveResourceKey

abbrev pub live_resource_keys : List LiveResourceKey
live_resource_keys =
    auctions_key ∷ banking_key ∷ bidders_key ∷ bonds_key ∷ central_bank_key ∷ operations_key
    ∷ registry_key ∷ []

pub data Frame : Type 0 where
  heartbeat : Frame
  changed : List LiveResourceKey → Frame

-- The subscribers in the order of the set, and whether the heartbeat timer runs.
pub record LiveEventBroadcaster : Type 0 where
  pub subscribers : List ℕ
  pub timer_runs : Bool

abbrev pub new_broadcaster : LiveEventBroadcaster
new_broadcaster = record { subscribers = []; timer_runs = false }

unfoldable pub subscribe : ℕ → LiveEventBroadcaster → LiveEventBroadcaster
subscribe subscriber b = record {
  subscribers =
      if has_row (◌==◌ subscriber) b.subscribers
      then b.subscribers
      else b.subscribers ++ subscriber ∷ [];
  timer_runs = true;
}

unfoldable pub stop_heartbeat_when_idle : LiveEventBroadcaster → LiveEventBroadcaster
stop_heartbeat_when_idle b =
    if ltb 0 (length b.subscribers) then b else record b { timer_runs = false }

-- The function that `subscribe` returns.
unfoldable pub unsubscribe : ℕ → LiveEventBroadcaster → LiveEventBroadcaster
unsubscribe subscriber b =
    stop_heartbeat_when_idle
      (record b { subscribers = delete_rows (◌==◌ subscriber) b.subscribers })

module _ (takes : ℕ → Frame → Bool) where
  -- Who throws is dropped.
  unfoldable pub broadcast : Frame → LiveEventBroadcaster → LiveEventBroadcaster
  broadcast frame b =
      stop_heartbeat_when_idle
        (record b { subscribers = select_rows (λ s. takes s frame) b.subscribers })

  -- The resources that are asked for, in the order of the contract; nothing is sent for none.
  unfoldable pub publish_changed :
      (LiveResourceKey → Bool) → LiveEventBroadcaster → LiveEventBroadcaster
  publish_changed requested b =
      let keys = select_rows requested live_resource_keys in
      if ltb 0 (length keys) then broadcast (changed keys) b else b

  -- What happens to a broadcaster; the timer fires only while it runs.
  pub data Action : Type 0 where
    subscribes unsubscribes : ℕ → Action
    publishes : (LiveResourceKey → Bool) → Action
    timer_fires : Action

  unfoldable pub perform : Action → LiveEventBroadcaster → LiveEventBroadcaster
  perform (subscribes s) b = subscribe s b
  perform (unsubscribes s) b = unsubscribe s b
  perform (publishes requested) b = publish_changed requested b
  perform timer_fires b = if b.timer_runs then broadcast heartbeat b else b

  -- The broadcasters that a sequence of actions leads to.
  pub data Reachable : LiveEventBroadcaster → Type 0 where
    start : Reachable new_broadcaster
    step : (action : Action) (b : LiveEventBroadcaster) → Reachable b → Reachable (perform action b)
