-- ===== src/Store/Database.antt =====
-- The tables of db/migrations that fpt/store reads and writes, with the columns that the code uses.
-- A table is the list of its rows; a time is a number of microseconds and a date one of days.
use fishing_deal_tracker.Prelude.{ℕ, String, Bool, true, false, Option, List, ◌&&◌}
use fishing_deal_tracker.Prelude.Int.{ℤ}
use fishing_deal_tracker.Prelude.Eq.{◌==◌, nat_eq, string_eq}
use fishing_deal_tracker.Domain.{
  Availability, ClaimedReferenceKind, Condition, ConditionGroup, DetectedVia, Lane, PageType,
  Quality, Reason, ResponseOutcome, Rule, SellerType,
}
use fishing_deal_tracker.Deals.References.{ReferenceDetail, ReferenceKind}
use fishing_deal_tracker.Deals.Confirm.{HoldReason, RejectReason}

pub record Seller : Type 0 where
  pub id : ℕ
  pub retailer_id : ℕ
  pub seller_key : String
  pub name : Option String
  pub seller_type : SellerType

pub record Retailer : Type 0 where
  pub id : ℕ
  pub slug : String

pub record Product : Type 0 where
  pub id : ℕ
  pub category : String

pub record Variant : Type 0 where
  pub id : ℕ
  pub product_id : ℕ

pub record Listing : Type 0 where
  pub id : ℕ
  pub retailer_id : ℕ
  pub retailer_sku : String
  pub retailer_product_code : Option String
  pub url : String
  pub title_raw : String
  pub brand_raw : Option String
  pub model_raw : Option String
  pub variant_label_raw : String
  pub attributes_raw : String
  pub attributes_norm : String
  pub variant_key_observed : Option String
  pub gtin14 : List String
  pub mpn_raw : Option String
  pub unit_count : Option ℤ
  pub variant_id : Option ℕ
  pub match_status : String
  pub is_active : Bool
  pub consecutive_absent : ℕ
  pub last_seen_at : ℕ

pub record Offer : Type 0 where
  pub id : ℕ
  pub listing_id : ℕ
  pub seller_id : ℕ
  pub offer_key : String
  pub condition : Condition
  pub condition_group : ConditionGroup
  pub condition_raw : Option String
  pub is_active : Bool
  pub vanished_at : Option ℕ
  pub last_seen_at : ℕ

pub record MatchCandidate : Type 0 where
  pub listing_id : ℕ
  pub variant_id : ℕ
  pub reason : String

pub data TaskKind : Type 0 where
  confirm hot discovery enroll baseline canary : TaskKind

abbrev pub kind_beq : TaskKind → TaskKind → Bool
kind_beq TaskKind.confirm TaskKind.confirm = true
kind_beq TaskKind.hot TaskKind.hot = true
kind_beq TaskKind.discovery TaskKind.discovery = true
kind_beq TaskKind.enroll TaskKind.enroll = true
kind_beq TaskKind.baseline TaskKind.baseline = true
kind_beq TaskKind.canary TaskKind.canary = true
kind_beq _ _ = false

pub record Observation : Type 0 where
  pub id : ℕ
  pub offer_id : ℕ
  pub crawl_task_id : ℕ
  pub task_kind : TaskKind
  pub observed_at : ℕ
  pub observed_date_et : ℕ
  pub price_cents : Option ℤ
  pub shipping_cents : Option ℤ
  pub claimed_reference_cents : Option ℤ
  pub claimed_reference_kind : Option ClaimedReferenceKind
  pub on_clearance : Bool
  pub availability : Availability
  pub stock_qty : Option ℕ
  pub stock_qty_is_floor : Bool
  pub restock_date : Option ℕ
  pub unit_count : Option ℤ
  pub variant_key_observed : Option String
  pub quality : Quality
  pub quality_reasons : List Reason
  pub adapter_version : String
  pub snapshot_ref : String
  pub currency : String

pub data DealStatus : Type 0 where
  candidate confirming active held_review rejected expired : DealStatus

pub data DealReferenceKind : Type 0 where
  verified : ReferenceKind → DealReferenceKind
  current_new retailer_claimed : DealReferenceKind

pub data ExpireReason : Type 0 where
  sold_out reference_lost price_recovered not_observed : ExpireReason

pub record Deal (F : Type 0) : Type 0 where
  pub id : ℕ
  pub offer_id : ℕ
  pub rule : Rule
  pub lane : Lane
  pub status : DealStatus
  pub detected_observation_id : ℕ
  pub confirming_observation_id : Option ℕ
  pub last_confirmed_observation_id : Option ℕ
  pub detected_via : DetectedVia
  pub price_cents : ℤ
  pub landed_price_cents : Option ℤ
  pub reference_kind : DealReferenceKind
  pub reference_cents : ℤ
  pub reference_detail : ReferenceDetail
  pub claimed_reference_cents : Option ℤ
  pub claimed_reference_kind : Option ClaimedReferenceKind
  pub claimed_inflated : Option Bool
  pub discount_pct : F
  pub reject_reason : Option RejectReason
  pub hold_reason : Option HoldReason
  pub detected_at : ℕ
  pub confirmed_at : Option ℕ
  pub expired_at : Option ℕ
  pub expire_reason : Option ExpireReason

pub data TaskStatus : Type 0 where
  queued leased done failed expired skipped_robots skipped_budget : TaskStatus

-- `dedupe_key`, by the parts that its string is made of.
pub data DedupeKey : Type 0 where
  confirm_deal : (deal_id : ℕ) → DedupeKey
  enroll_url : (retailer_id : ℕ) (url : String) → DedupeKey
  fetch_of : (kind : TaskKind) (retailer_slug retailer_sku snapshot_ref : String) → DedupeKey

abbrev pub dedupe_beq : DedupeKey → DedupeKey → Bool
dedupe_beq (DedupeKey.confirm_deal a) (DedupeKey.confirm_deal b) = a == b
dedupe_beq (DedupeKey.enroll_url a u) (DedupeKey.enroll_url b v) = a == b && u == v
dedupe_beq (DedupeKey.fetch_of k a b c) (DedupeKey.fetch_of l d e f) =
    kind_beq k l && a == d && b == e && c == f
dedupe_beq _ _ = false

pub record CrawlTask : Type 0 where
  pub id : ℕ
  pub retailer_id : ℕ
  pub kind : TaskKind
  pub priority : ℕ
  pub page_type : PageType
  pub url : String
  pub category_hint : Option String
  pub deal_id : Option ℕ
  pub dedupe_key : DedupeKey
  pub not_before : ℕ
  pub deadline : Option ℕ
  pub status : TaskStatus
  pub outcome : Option ResponseOutcome
  pub attempts : ℕ
  pub finished_at : Option ℕ

-- The database as one transaction sees it: its tables, `now()`, `CURRENT_DATE`, and the sequences
-- that number new rows.
pub record Db (F : Type 0) : Type 0 where
  pub now : ℕ
  pub current_date : ℕ
  pub sellers : List Seller
  pub retailers : List Retailer
  pub products : List Product
  pub product_variants : List Variant
  pub listings : List Listing
  pub offers : List Offer
  pub match_candidates : List MatchCandidate
  pub price_observations : List Observation
  pub deals : List (Deal F)
  pub crawl_tasks : List CrawlTask
  pub next_seller_id : ℕ
  pub next_listing_id : ℕ
  pub next_offer_id : ℕ
  pub next_observation_id : ℕ
  pub next_deal_id : ℕ
  pub next_task_id : ℕ
