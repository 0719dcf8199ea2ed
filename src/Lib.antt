-- ===== src/Lib.antt =====
-- The deal tracker's core: from the observations of an offer to a deal, its confirmation by a
-- second fetch, its rechecks and its end, and the queue and the budget of requests behind the
-- fetches. All paths are from the repository's root.
--
-- The parts and how they interact. `ingest_parsed_listing` (fpt/store/pipeline.py) has an
-- observation of an offer judged by fpt/pipeline/validate.py, records it, and then rechecks the
-- offer's ACTIVE deal, or confirms its open one, or runs the detection. Detection asks
-- fpt/store/deals.py for the references of the offer, which it resolves by the pure rules of
-- fpt/deals/references.py, and puts the price to the three rules of fpt/deals/detect.py. A
-- candidate becomes a row of `deals` with a CONFIRM task. A later observation is put to the checks
-- 1 to 10 of fpt/deals/confirm.py. What may be fetched at all is decided by
-- fpt/scheduler/limiter.py.
--
-- Prelude: the shared names. Prelude/Tests has the Boolean tests, Prelude/Lists lists over the
-- native numbers, Prelude/Int the integers, Prelude/Eq Python's `==`, Prelude/Order sorting and
-- minima, Prelude/Query the clauses of SQL that the queries use (joins, DISTINCT ON, ORDER BY).
-- Floats: Python's floats as a parameter with the laws of IEEE 754 that the proofs use, and in
-- Floats/Fixed an instance that meets them, for evaluation.
-- Domain: the enums and `ParsedOffer` of fpt/adapters/base.py.
-- Deals/Discount and Deals/Detect: fpt/deals/detect.py. Eligible says which inputs are candidates,
-- Price how the answer moves with the price and the reference.
-- Deals/Confirm: fpt/deals/confirm.py. Context holds its records, Checks the meaning of each check,
-- Verdict that of the whole.
-- Deals/References: fpt/deals/references.py. Rounded is about the rounded median of numbers, Median
-- about R1, Lowest about R2, U1 and the verified reference, Safe about the verified reference as
-- detection uses it.
-- Store/Database: the tables of db/migrations, each a list of its rows, with the columns in use.
-- Store/Evidence: what the reads of fpt/store/deals.py return, their limits of age and their
-- orders.
-- Store/Queries: those reads; Scope says what evidence they let through.
-- Store/Deals: its writes. Rows has `find_open_deal` and `create_candidate_deal`, Confirmation
-- `build_confirm_context`, `apply_confirm_result` and `enqueue_confirm_task`, Recheck
-- `refresh_or_expire_active_deal` and `expire_stale_deals`. Invariant states what the table
-- guarantees, Lifecycle that the writes keep it, Outcome what a recheck decides, UsedLane what
-- becomes of used deals.
-- Store/Listings: fpt/store/listings.py. Keys is about its unique keys, Kept about what an upsert
-- leaves of a listing.
-- Store/Observations: fpt/store/observations.py, with Once for the deduplication of snapshots.
-- Store/Pipeline: fpt/store/pipeline.py. Store/Pipeline itself has `_try_recheck_active` and
-- `_try_confirm`, Ingest has `_run_detection` and the choice among them, Offers the loop of
-- `ingest_parsed_listing` over the offers, from the upsert of the listing on. Shipping, Keeps,
-- Frame and Answers are about the first two; Offers/Steps, Whole, Replay and Silent about the loop.
-- Validation: fpt/pipeline/validate.py. Quiet says what each guard asks, Verdict when an
-- observation is OK and when the confirmation accepts it.
-- Scheduler/Limiter: fpt/scheduler/limiter.py. Admission, Budget and Breaker are about it.
-- Scheduler/Queue: fpt/scheduler/queue.py. Overdue is about the expiry of CONFIRM tasks and
-- Selected about the choice of a task; Drain has the loop of `drain_retailer_queue` over its
-- collaborators (`Site`), with Laws for what it relies on from the ingest, Rounds for the induction
-- over rounds, and Budget, Ends (with Steps), Tasks and Deals for what it does to the limiter, the
-- loop and the tables; Pipeline gives its listings to Store/Pipeline/Offers.
-- Fetch/Blocks: fpt/fetch/blocks.py. Substring is about the search, Outcome about the
-- classification.
-- Capture/RateLimit: fpt/capture/ratelimit.py. Bucket is about its queues of times, Refinement
-- about what it promises.
-- Core/Gtin: fpt/core/gtin.py. Checksum is about the check digit, Normal about the normal form.
-- Core/Ids: fpt/core/ids.py, with Decode for what an identifier keeps.
--
-- Correspondence. A function of the source has the same name here, without a leading underscore. A
-- function that reads or writes the database takes the tables (`Db`) and returns them, as one
-- transaction sees them: `now()` and `CURRENT_DATE` are fields of it. A write that trips a unique
-- index is rolled back to its savepoint, so only the sequence has moved. An insert of a deal that a
-- CHECK of db/migrations/008_deals.up.sql refuses is an exception. None in place of a pair with
-- tables is an exception. Prices are integers, times are microseconds, dates are days. A config
-- file that the source loads is an argument (`DealRules`, `RecheckRules`, `Guards`). There is no
-- fuel: the loops are over finite lists, or over the rounds of a drain (`max_tasks` of them), and
-- all functions are total. Where the bytes or the letters of a text are read, a text is a list of
-- numbers.
--
-- Not modelled: the adapters, fetchers and the capture server (I/O and parsing of foreign pages),
-- the export, the enroller, the catalogue of brands, products and variants, the normalisation of
-- attributes, the loading of configuration, and the CHECKs that an update may trip. Prices are
-- taken to be below 2 ^ 53, where a float holds an integer exactly.
pub mod Prelude
pub mod Floats
pub mod Domain
pub mod Fetch
pub mod Deals
pub mod Capture
pub mod Core
pub mod Store
pub mod Validation
pub mod Scheduler
