-- ===== src/Lib.antt =====
-- Verification library of the NB Bond API (services/nb-bond-api), the service that runs the auctions
-- of tokenised bonds and keeps a database in step with the contracts that issue them.
--
-- How the parts interact. `ingestion.ts` reads the logs of three contracts in windows of blocks,
-- decodes them, and applies them in one transaction to the tables of `ingestion-db.ts`, through the
-- reducers of `projection/`; it stores a checkpoint with the tables. Bidders submit sealed bids, which
-- `bidder-bid.ts` builds with `encryption.ts` and `bid.ts` unseals and checks. `allocation.ts` computes
-- the result of an auction from unsealed bids, whose numbers `parsing.ts` reads. `compose.ts` reads
-- snapshots of the tables and composes the views of auctions and bonds that the API returns, with the
-- bids unsealed where they may be seen. `auth.ts` decides which requests get there, and
-- `operations.ts` records what operators do.
--
-- Files:
--   Prelude      integers (JavaScript's bigint), texts as lists of UTF-16 units, results, tests
--   Parsing      services/nb-bond-api/src/parsing.ts: parseBigInt, parsePositiveBigInt
--   Allocation   services/nb-bond-api/src/allocation.ts and types.ts: sortBidsByAuctionType,
--                computeUniformAllocation, computeBuybackAllocation, buildAllocationHash
--   Projection   services/nb-bond-api/src/projection/: reducePartitionTransfer, reduceBondState; the
--                snapshots (snapshots.ts) and the views of compose-projection.ts (AuctionView, BondView)
--   Sealing      services/nb-bond-api/src/: encryption.ts (Bytes, Envelope, Encryption), bid.ts and
--                keys.ts (Bid), bidder-bid.ts (BidderBid), contracts/bids.ts and contracts/common.ts
--                (Schema)
--   Database     services/nb-bond-api/src/ingestion-db.ts: the tables as lists of rows, the statements
--                on them (Table), the migration and the identity guard (Schema), bidders, banks and
--                attempts (Records), the queries on the projection (Queries), listAllBonds (Bonds)
--   Ingestion    services/nb-bond-api/src/ingestion.ts: the events; Writes (the statements), Apply (one
--                handler a contract), Read (what is fetched first), Range (the transaction), Window
--                (computeIngestionWindow and the loop of processTo), Boot (startIngestionLoopWithRetry)
--   Compose      services/nb-bond-api/src/compose.ts: composeAuction, composeBond, composeAllBonds,
--                composeAllAuctions (Bonds and Errors: what the lists hold), composeBondHistory (History)
--   Service      services/nb-bond-api/src/live-events.ts: the broadcaster of changes;
--                services/nb-bond-api/src/health.ts: deriveStatus; operations.ts (Operations) and
--                auth.ts (Auth) of the same folder
--   Examples     runs of the model, and each theorem at one input
--
-- Correspondence. A table is a list of rows, a primary key a test on rows. Decimal text columns are
-- integers. A throw is an `err` of `Result`; the state after a throw is the one before, as SQLite rolls
-- a transaction back. Packages are parameters: `AbiCoder` (ethers' encoder and hash), `Chain` (the
-- node, ethers' decoder, keccak256), `Packages` (the curve, the cipher, the hashes and JSON that
-- encryption.ts calls), `Wallets` and `BondAuction` (ethers' wallets and the calls of the auction
-- contract), `verify` (the verification of tokens) and `describe_revert`. What is assumed of the
-- cryptography is the predicate `IsDocumented`: both sides of a key agreement get the same secret, and
-- what is encrypted decrypts with the same key and nonce. Random bytes, nonces and the time are
-- arguments. A caught failure of partitionToIsin is `none`. Times and block numbers are natural
-- numbers without JavaScript's limit of 2 ^ 53. SQLite's order of texts is the parameter `text_leb`.
-- Views carry the integers whose decimal text the API prints, and no md5 stamps.
-- A document is what JSON.parse returns: an object with its fields, from which hashBidPlaintext takes
-- the signature, or anything else. A negative LIMIT of SQLite is none, as a client's negative limit of
-- a history shows; a limit that is no integer stays out.
--
-- Fuel. The loop of processTo runs on `latest + 2` turns: every window takes one block at least, and
-- the last turn finds none left. The loop that starts the ingestion may retry for ever: its fuel is the
-- number of attempts, and `still_retrying` its end when that is spent.
--
-- Not modelled: toOperationAttemptDto, the routes and the mapping of errors to HTTP answers (app.ts,
-- http.ts), the waits of ingestion.ts for a block, reset and shutdown (admin.ts, shutdown.ts), the
-- calls of contracts for banks, bidders and the central bank, the reading of configuration, timers
-- and the queue that serialises calls of processTo, logging; state.ts and formatAllocationResult,
-- which nothing uses; the browser front end, and the contracts themselves.
pub mod Prelude
pub mod Parsing
pub mod Allocation
pub mod Projection
pub mod Sealing
pub mod Database
pub mod Ingestion
pub mod Compose
pub mod Service
pub mod Examples
