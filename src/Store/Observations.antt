-- ===== src/Store/Observations.antt =====
-- fpt/store/observations.py: observations, recorded once for each offer and snapshot, and the crawl
-- tasks of fetches that have none. The calendar of America/New_York is a parameter.
pub mod Once
mod Tests
use fishing_deal_tracker.Prelude.{
  ℕ, ◌+◌, String, Bool, true, false, not, ◌&&◌, Option, none, some, List, ◌∷◌, leb, if◌then◌else◌,
}
use fishing_deal_tracker.Prelude.Int.{ℤ}
use fishing_deal_tracker.Prelude.Eq.{◌==◌, nat_eq, string_eq}
use fishing_deal_tracker.Prelude.Order.{keep, sort}
use fishing_deal_tracker.Prelude.Query.{find?, head?}
use fishing_deal_tracker.Domain.{
  Availability, ClaimedReferenceKind, PageType, Quality, Reason, ResponseOutcome,
}
use fishing_deal_tracker.Store.Database.{
  CrawlTask, Db, DedupeKey, Observation, TaskKind, TaskStatus, dedupe_beq,
}
use fishing_deal_tracker.Validation.{ValidationResult}

-- `DEFAULT_TASK_KIND_BY_PAGE_TYPE`, which has every page type.
unfoldable pub default_task_kind : PageType → TaskKind
default_task_kind PageType.product = TaskKind.baseline
default_task_kind PageType.clearance_listing = TaskKind.discovery
default_task_kind PageType.used_listing = TaskKind.discovery
default_task_kind PageType.catalog_listing = TaskKind.discovery
default_task_kind PageType.api_batch = TaskKind.baseline

-- The arguments of `record_observation`, less the validation and the snapshot.
pub record ObservedValues : Type 0 where
  pub offer_id : ℕ
  pub crawl_task_id : ℕ
  pub task_kind : TaskKind
  pub observed_at : ℕ
  pub price_cents : Option ℤ
  pub shipping_cents : Option ℤ
  pub claimed_reference_cents : Option ℤ
  pub claimed_reference_kind : Option ClaimedReferenceKind
  pub on_clearance : Bool
  pub availability : Availability
  pub stock_qty : Option ℕ
  pub stock_qty_is_floor : Bool
  pub restock_date : Option ℕ
  pub unit_count : Option ℤ
  pub variant_key_observed : Option String
  pub adapter_version : String
  pub currency : String

pub record RecordedObservation : Type 0 where
  pub observation_id : ℕ
  pub quality : Quality
  pub reasons : List Reason
  pub was_duplicate : Bool

-- `WHERE offer_id = … AND snapshot_ref = …`
abbrev pub is_snapshot_of : (offer_id : ℕ) (snapshot_ref : String) → Observation → Bool
is_snapshot_of offer_id snapshot_ref o = o.offer_id == offer_id && o.snapshot_ref == snapshot_ref

-- `row[0] if row else None`
abbrev pub observation_id_of : Option Observation → Option ℕ
observation_id_of none = none
observation_id_of (some o) = some o.id

abbrev pub new_observation :
    (id observed_date_et : ℕ)
    → ObservedValues
    → ValidationResult
    → (snapshot_ref : String) → Observation
new_observation id observed_date_et v validation snapshot_ref = record {
  id = id;
  offer_id = v.offer_id;
  crawl_task_id = v.crawl_task_id;
  task_kind = v.task_kind;
  observed_at = v.observed_at;
  observed_date_et = observed_date_et;
  price_cents = v.price_cents;
  shipping_cents = v.shipping_cents;
  claimed_reference_cents = v.claimed_reference_cents;
  claimed_reference_kind = v.claimed_reference_kind;
  on_clearance = v.on_clearance;
  availability = v.availability;
  stock_qty = v.stock_qty;
  stock_qty_is_floor = v.stock_qty_is_floor;
  restock_date = v.restock_date;
  unit_count = v.unit_count;
  variant_key_observed = v.variant_key_observed;
  quality = validation.quality;
  quality_reasons = validation.reasons;
  adapter_version = v.adapter_version;
  snapshot_ref = snapshot_ref;
  currency = v.currency;
}

abbrev pub recorded : (id : ℕ) → ValidationResult → (was_duplicate : Bool) → RecordedObservation
recorded id validation was_duplicate = record {
  observation_id = id;
  quality = validation.quality;
  reasons = validation.reasons;
  was_duplicate = was_duplicate;
}

-- `ORDER BY id DESC`
abbrev pub later_task : CrawlTask → CrawlTask → Bool
later_task a b = leb b.id a.id

abbrev pub has_dedupe_key : DedupeKey → CrawlTask → Bool
has_dedupe_key key t = dedupe_beq t.dedupe_key key

module _ {F : Type 0} where
  -- An empty reference never names a snapshot.
  unfoldable pub find_existing_observation_by_snapshot :
      Db F → (offer_id : ℕ) (snapshot_ref : String) → Option ℕ
  find_existing_observation_by_snapshot db offer_id snapshot_ref =
      if snapshot_ref == ""
      then none
      else observation_id_of (find? (is_snapshot_of offer_id snapshot_ref) db.price_observations)

  abbrev pub insert_observation :
      (date_et : ℕ → ℕ)
      → Db F
      → ObservedValues
      → ValidationResult
      → (snapshot_ref : String) → RecordedObservation × Db F
  insert_observation date_et db v validation snapshot_ref = (
    recorded db.next_observation_id validation false,
    record db {
      price_observations =
          new_observation db.next_observation_id (date_et v.observed_at) v validation snapshot_ref
          ∷ db.price_observations;
      next_observation_id = db.next_observation_id + 1;
    },
  )

  abbrev pub record_unless :
      (date_et : ℕ → ℕ)
      → Db F
      → ObservedValues
      → ValidationResult
      → (snapshot_ref : String) → Option ℕ
      → RecordedObservation × Db F
  record_unless date_et db v validation snapshot_ref none =
      insert_observation date_et db v validation snapshot_ref
  record_unless date_et db v validation snapshot_ref (some existing) =
      (recorded existing validation true, db)

  unfoldable pub record_observation :
      (date_et : ℕ → ℕ)
      → Db F
      → ObservedValues
      → ValidationResult
      → (snapshot_ref : String) → RecordedObservation × Db F
  record_observation date_et db v validation snapshot_ref =
      record_unless date_et db v validation snapshot_ref
        (find_existing_observation_by_snapshot db v.offer_id snapshot_ref)

  abbrev pub task_unless : Db F → CrawlTask → Option CrawlTask → ℕ × Db F
  task_unless db task (some existing) = (existing.id, db)
  task_unless db task none = (
    task.id,
    record db { crawl_tasks = task ∷ db.crawl_tasks; next_task_id = db.next_task_id + 1 },
  )

  -- With the default priority, status and outcome.
  unfoldable pub get_or_create_crawl_task :
      Db F → (retailer_id : ℕ) → TaskKind → PageType → (url : String) → DedupeKey → ℕ × Db F
  get_or_create_crawl_task db retailer_id kind page_type url key =
      task_unless db
        (record {
          id = db.next_task_id;
          retailer_id = retailer_id;
          kind = kind;
          priority = 30;
          page_type = page_type;
          url = url;
          category_hint = none;
          deal_id = none;
          dedupe_key = key;
          not_before = db.now;
          deadline = none;
          status = TaskStatus.done;
          outcome = some ResponseOutcome.ok;
          attempts = 0;
          finished_at = some db.now;
        })
        (head? (sort later_task (keep (has_dedupe_key key) db.crawl_tasks)))
