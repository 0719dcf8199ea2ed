-- ===== src/Fetch/Blocks/Tests.antt =====
-- Responses to classify, and the theorems at them.
use fishing_deal_tracker.Prelude.{ℕ, String, ◌≡◌, ◌↔◌, ◌⊎◌, refl, none, some, List, [], ◌∷◌, map}
use fishing_deal_tracker.Domain.{ResponseOutcome}
use fishing_deal_tracker.Fetch.Blocks.{
  BlockSignature, block_signatures, bytes, detect_block_or_empty, includes, lower, result_with,
}
use fishing_deal_tracker.Fetch.Blocks.Outcome.{
  IsPage, SomeOccurs, detect_block_or_empty-blocked_iff, detect_block_or_empty-ok_iff,
}

abbrev challenge : List ℕ
challenge = bytes "<h1>Access Denied</h1>"

abbrev url : String
url = "https://www.academy.com/rod"

-- Where a redirect has led.
abbrev home : String
home = "https://www.academy.com/"

abbrev sentinels : List (List ℕ)
sentinels = bytes "rod" ∷ []

challenged :
    detect_block_or_empty 200 challenge url home sentinels
    ≡ result_with ResponseOutcome.blocked (some (BlockSignature.signature "access denied"))
unfolding detect_block_or_empty includes
challenged = refl

missing :
    detect_block_or_empty 404 (bytes "a rod") url home sentinels
    ≡ result_with ResponseOutcome.not_found none
unfolding detect_block_or_empty includes
missing = refl

without_sentinel :
    detect_block_or_empty 200 (bytes "a reel") url home sentinels
    ≡ result_with ResponseOutcome.empty none
unfolding detect_block_or_empty includes
without_sentinel = refl

detect_block_or_empty-ok_iff_example :
    ((detect_block_or_empty 200 (bytes "a rod") url home sentinels).outcome ≡ ResponseOutcome.ok)
    ↔ IsPage 200 (bytes "a rod") sentinels
detect_block_or_empty-ok_iff_example =
    detect_block_or_empty-ok_iff 200 (bytes "a rod") url home sentinels

abbrev too_many : ℕ
too_many = 429

detect_block_or_empty-blocked_iff_example :
    ((detect_block_or_empty too_many challenge url home sentinels).outcome
      ≡ ResponseOutcome.blocked)
    ↔ (SomeOccurs block_signatures (map lower challenge) ⊎ ((too_many ≡ 403) ⊎ (too_many ≡ 429)))
detect_block_or_empty-blocked_iff_example =
    detect_block_or_empty-blocked_iff too_many challenge url home sentinels
