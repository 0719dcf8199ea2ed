-- ===== src/Domain.antt =====
-- The enums of fpt/adapters/base.py, with `CONDITION_GROUP`, and the vocabularies that the other
-- modules keep as documented strings.
use fishing_deal_tracker.Prelude.{
  ℕ, String, Bool, true, false, Option, List, [], ◌∷◌, if◌then◌else◌,
}
use fishing_deal_tracker.Prelude.Int.{ℤ}
use fishing_deal_tracker.Prelude.Eq.{◌==◌, string_eq}

pub data Condition : Type 0 where
  new new_open_box refurbished used_like_new used_very_good used_good used_acceptable
        used_ungraded :
      Condition

-- `Condition.X.value`
abbrev pub condition_value : Condition → String
condition_value new = "NEW"
condition_value new_open_box = "NEW_OPEN_BOX"
condition_value refurbished = "REFURBISHED"
condition_value used_like_new = "USED_LIKE_NEW"
condition_value used_very_good = "USED_VERY_GOOD"
condition_value used_good = "USED_GOOD"
condition_value used_acceptable = "USED_ACCEPTABLE"
condition_value used_ungraded = "USED_UNGRADED"

-- The values of `CONDITION_GROUP`.
pub data ConditionGroup : Type 0 where
  new_group open_box refurb used : ConditionGroup

abbrev pub condition_groups : List (String × ConditionGroup)
condition_groups =
    ("NEW", new_group)
    ∷ ("NEW_OPEN_BOX", open_box)
    ∷ ("REFURBISHED", refurb)
    ∷ ("USED_LIKE_NEW", used)
    ∷ ("USED_VERY_GOOD", used)
    ∷ ("USED_GOOD", used)
    ∷ ("USED_ACCEPTABLE", used)
    ∷ ("USED_UNGRADED", used)
    ∷ []

-- `d.get(key, default)`
abbrev pub get_str {ℓ} : {A : Type ℓ} → List (String × A) → String → A → A
get_str [] key default = default
get_str ((k, v) ∷ rest) key default = if key == k then v else get_str rest key default

abbrev pub group_beq : ConditionGroup → ConditionGroup → Bool
group_beq new_group new_group = true
group_beq open_box open_box = true
group_beq refurb refurb = true
group_beq used used = true
group_beq _ _ = false

pub data SellerType : Type 0 where
  first_party retailer_resale marketplace_3p : SellerType

pub data Availability : Type 0 where
  in_stock out_of_stock store_only backorder unknown : Availability

-- `availability == Availability.IN_STOCK`
abbrev pub is_in_stock : Availability → Bool
is_in_stock in_stock = true
is_in_stock _ = false

-- `availability in (Availability.IN_STOCK, Availability.STORE_ONLY)`
abbrev pub is_sellable : Availability → Bool
is_sellable in_stock = true
is_sellable store_only = true
is_sellable _ = false

pub data PageType : Type 0 where
  product clearance_listing used_listing catalog_listing api_batch : PageType

abbrev pub is_product : PageType → Bool
is_product product = true
is_product _ = false

pub data ResponseOutcome : Type 0 where
  ok blocked empty structure_changed not_found quota_exhausted : ResponseOutcome

pub data ClaimedReferenceKind : Type 0 where
  was msrp list_price compare_at : ClaimedReferenceKind

-- `ValidationResult.quality` of fpt/pipeline/validate.py.
pub data Quality : Type 0 where
  ok suspect rejected : Quality

-- `ValidationResult.reasons` of fpt/pipeline/validate.py.
pub data Reason : Type 0 where
  invalid_price_or_currency out_of_band large_move claimed_not_above_price unit_mismatch
        variant_identity_changed variant_collapse price_flattening condition_unknown :
      Reason

-- `DealCandidate.rule` and `DealCandidate.lane` of fpt/deals/detect.py.
pub data Rule : Type 0 where
  deep_discount_new deep_discount_claimed used_vs_current_new : Rule

abbrev pub rule_beq : Rule → Rule → Bool
rule_beq deep_discount_new deep_discount_new = true
rule_beq deep_discount_claimed deep_discount_claimed = true
rule_beq used_vs_current_new used_vs_current_new = true
rule_beq _ _ = false

pub data Lane : Type 0 where
  verified claimed used_lane : Lane

-- `detected_via` of a deal.
pub data DetectedVia : Type 0 where
  discovery_grid product_page data_api : DetectedVia

-- `ParsedOffer`; a date is a number of days.
pub record ParsedOffer : Type 0 where
  pub offer_key : String
  pub condition : Condition
  pub condition_raw : Option String
  pub seller_key : String
  pub seller_name : Option String
  pub seller_type : SellerType
  pub price_cents : Option ℤ
  pub shipping_cents : Option ℤ
  pub claimed_reference_cents : Option ℤ
  pub claimed_reference_kind : Option ClaimedReferenceKind
  pub on_clearance : Bool
  pub availability : Availability
  pub stock_qty : Option ℕ
  pub stock_qty_is_floor : Bool
  pub restock_date : Option ℕ
  pub unit_count : Option ℤ

-- `FetchRequest`; the parameters are pairs of a key and a value.
pub record FetchRequest : Type 0 where
  pub task_id : ℕ
  pub page_type : PageType
  pub url : String
  pub params : List (String × String)
  pub render_js : Bool
  pub api_cost_units : ℕ

-- `egress_mode` of a response.
pub data EgressMode : Type 0 where
  direct proxy api : EgressMode

-- `FetchResponse`; bytes are numbers.
pub record FetchResponse : Type 0 where
  pub request : FetchRequest
  pub status : ℕ
  pub final_url : String
  pub headers : List (String × String)
  pub body : List ℕ
  pub elapsed_ms : ℕ
  pub fetched_at : ℕ
  pub egress_mode : EgressMode
  pub snapshot_ref : String
  pub api_units_remaining : Option ℕ
