-- ===== src/Ingestion/Read.antt =====
-- ingestion.ts, `processBlockRange`: what it reads before its transaction starts. The node, the
-- decoder of logs and the hash are the record `Chain`: they are the package `ethers`, which the
-- service only calls.
use cbdc_tokenization_sandbo.Prelude.{
  Bool, List, Option, Result, Text, [], err, false, if◌then◌else◌, map, missing_source_block, none,
  ok, some, text_eq, true, ℕ, ℤ, ◌++◌, ◌>>=◌, ◌∷◌,
}
use cbdc_tokenization_sandbo.Ingestion.Writes.Auctions.{ChainAllocation, projected_auction_type}
use cbdc_tokenization_sandbo.Database.{ProjectionTables}
use cbdc_tokenization_sandbo.Ingestion.Writes.{coalesce, get_isin_for_partition}
use cbdc_tokenization_sandbo.Ingestion.{
  AuctionEvent, Batch, IsinArg, Log, ManagerEvent, TokenEvent, absent, auction_closed,
  auction_finalised, auction_finalized, bond_matured, bond_redeemed, holder_paid, isin_enabled,
  period_paid,
}
use cbdc_tokenization_sandbo.Database.Table.{has_row}
use cbdc_tokenization_sandbo.Ingestion.Apply.{extract_partition, truthy}

pub record RawLog : Type 0 where
  pub block_number : ℕ
  pub index : ℕ
  pub transaction_hash : Text
  pub contents : Text

-- `none` is a log that `parseLog` throws on.
pub record Chain : Type 0 where
  pub manager_address : Text
  pub token_address : Text
  pub auction_address : Text
  -- address, first and last block
  pub get_logs : Text → ℕ → ℕ → Result (List RawLog)
  pub parse_manager : RawLog → Option ManagerEvent
  pub parse_token : RawLog → Option TokenEvent
  pub parse_auction : RawLog → Option AuctionEvent
  -- the time of a block that the node has
  pub get_block : ℕ → Result (Option ℕ)
  -- a call that fails counts as null
  pub partition_to_isin : Text → Option Text
  -- auction, block: bidder, units, rate, auction type
  pub get_allocations : Text → ℕ → Result (List (Text × ℤ × ℤ × ℕ))
  -- `keccak256(toUtf8Bytes(isin))`
  pub partition_hash : Text → Text

module _ {E : Type 0} where
  unfoldable pub decode_events : (RawLog → Option E) → List RawLog → List (Log E)
  decode_events parse [] = []
  decode_events parse (log ∷ logs) =
      let rest = decode_events parse logs in
      elim (parse log) [
        | none ↦ rest
        | some event ↦
            record {
              block = log.block_number;
              log_index = log.index;
              tx_hash = log.transaction_hash;
              event = event;
            }
            ∷ rest
      ]

abbrev isin_arg : ManagerEvent → IsinArg
isin_arg (holder_paid isin _ _ _) = isin
isin_arg (period_paid isin _ _ _) = isin
isin_arg (bond_matured isin _ _ _ _) = isin
isin_arg (bond_redeemed isin _ _ _) = isin
isin_arg _ = absent

-- The set `partitionsNeedingResolution`, in insertion order.
unfoldable pub partitions_needing_resolution : List (Log ManagerEvent) → List Text → List Text
partitions_needing_resolution [] found = found
partitions_needing_resolution (log ∷ logs) found = elim (extract_partition (isin_arg log.event)) [
  | none ↦ partitions_needing_resolution logs found
  | some partition ↦
      partitions_needing_resolution logs
        (if has_row (text_eq partition) found then found else found ++ partition ∷ [])
]

-- A partition that the database knows is not asked for on the chain.
unfoldable pub resolve_partitions :
    (Text → Option Text) → ProjectionTables → List Text → List (Text × Option Text)
resolve_partitions on_chain db [] = []
resolve_partitions on_chain db (partition ∷ rest) =
    (partition, coalesce (truthy (get_isin_for_partition partition db)) (on_chain partition))
    ∷ resolve_partitions on_chain db rest

unfoldable pub needs_manager_time : ManagerEvent → Bool
needs_manager_time (holder_paid _ _ _ _) = true
needs_manager_time (period_paid _ _ _ _) = true
needs_manager_time (auction_closed _ _) = true
needs_manager_time (auction_finalised _ _) = true
needs_manager_time _ = false

unfoldable pub needs_token_time : TokenEvent → Bool
needs_token_time (isin_enabled _ _ _) = true
needs_token_time _ = false

unfoldable pub needs_auction_time : AuctionEvent → Bool
needs_auction_time (auction_finalized _) = true
needs_auction_time _ = false

module _ {E : Type 0} where
  unfoldable pub blocks_needed : (E → Bool) → List (Log E) → List ℕ
  blocks_needed needs [] = []
  blocks_needed needs (log ∷ logs) =
      let rest = blocks_needed needs logs in if needs log.event then log.block ∷ rest else rest

-- The blocks whose time some event needs.
unfoldable pub timestamp_blocks : Batch → List ℕ
timestamp_blocks batch =
    blocks_needed needs_manager_time batch.manager
    ++ (blocks_needed needs_token_time batch.token
        ++ blocks_needed needs_auction_time batch.auction)

-- `CouponPaid` cannot be projected without the time of its block.
unfoldable pub block_timestamps : (ℕ → Result (Option ℕ)) → List ℕ → Result (List (ℕ × ℕ))
block_timestamps get_block [] = ok []
block_timestamps get_block (block ∷ rest) = do
  found ← get_block block
  time ← elim found [ none ↦ err (missing_source_block block) | some t ↦ ok t ]
  times ← block_timestamps get_block rest
  ok ((block, time) ∷ times)

unfoldable pub chain_allocation : Text × ℤ × ℤ × ℕ → ChainAllocation
chain_allocation (bidder, units, rate, type) = record {
  bidder = bidder;
  units = units;
  rate = rate;
  auction_type = projected_auction_type (some type);
}

-- The auction that a log finalises.
abbrev pub finalized_auction : AuctionEvent → Option Text
finalized_auction (auction_finalized auction_id) = some auction_id
finalized_auction _ = none

-- The allocations of the auctions that the range finalises; of two for one auction the later counts.
unfoldable pub final_allocations :
    (Text → ℕ → Result (List (Text × ℤ × ℤ × ℕ)))
    → List (Log AuctionEvent)
    → List (Text × List ChainAllocation)
    → Result (List (Text × List ChainAllocation))
final_allocations get [] found = ok found
final_allocations get (log ∷ logs) found = elim (finalized_auction log.event) [
  | none ↦ final_allocations get logs found
  | some auction_id ↦ do
    rows ← get auction_id log.block
    final_allocations get logs ((auction_id, map chain_allocation rows) ∷ found)
]

-- What is read before the transaction starts.
pub record Facts : Type 0 where
  pub batch : Batch
  pub resolved : List (Text × Option Text)
  pub times : List (ℕ × ℕ)
  pub final : List (Text × List ChainAllocation)

unfoldable pub read_facts : Chain → ℕ → ℕ → ProjectionTables → Result Facts
read_facts chain from to db = do
  manager_logs ← chain.get_logs chain.manager_address from to
  token_logs ← chain.get_logs chain.token_address from to
  auction_logs ← chain.get_logs chain.auction_address from to
  let batch : Batch = record {
    manager = decode_events chain.parse_manager manager_logs;
    token = decode_events chain.parse_token token_logs;
    auction = decode_events chain.parse_auction auction_logs;
  }
  let needed : List Text = partitions_needing_resolution batch.manager []
  final ← final_allocations chain.get_allocations batch.auction []
  times ← block_timestamps chain.get_block (timestamp_blocks batch)
  ok (record {
    batch = batch;
    resolved = resolve_partitions chain.partition_to_isin db needed;
    times = times;
    final = final;
  })
