-- ===== src/Core/Gtin/Tests.antt =====
-- A barcode in the forms that retailers give it, and the theorems at it.
use fishing_deal_tracker.Prelude.{
  ℕ, ◌<◌, ◌≡◌, refl, true, false, none, some, List, [], ◌∷◌, ◌++◌, arith,
}
use fishing_deal_tracker.Fetch.Blocks.{bytes}
use fishing_deal_tracker.Core.Gtin.{
  Decimals, ascii_value, gs1_checksum_valid, normalize_all, normalize_gtin, total_from,
}
use fishing_deal_tracker.Core.Gtin.Checksum.{gs1_checksum_valid-detects}
use fishing_deal_tracker.Core.Gtin.Normal.{
  Collects, normalize_all-Collects, normalize_gtin_idempotent,
}

ascii_value-lt : (c v : ℕ) → ascii_value c ≡ some v → v < 10
ascii_value-lt c v e = ground (arith, e)

-- The digits of ASCII alone.
abbrev ascii : Decimals
ascii = record { value = ascii_value; value-lt = ascii_value-lt; value-zero = refl }

abbrev upc : List ℕ
upc = bytes "0 36000-29145 2"

abbrev gtin : List ℕ
gtin = bytes "00036000291452"

normal : normalize_gtin ascii upc ≡ some gtin
unfolding normalize_gtin gs1_checksum_valid total_from
normal = refl

misread : normalize_gtin ascii (bytes "036000291453") ≡ none
unfolding normalize_gtin gs1_checksum_valid total_from
misread = refl

both_forms : normalize_all ascii (upc ∷ bytes "x" ∷ bytes "0036000291452" ∷ []) ≡ gtin ∷ []
unfolding normalize_all normalize_gtin gs1_checksum_valid total_from
both_forms = refl

normalize_gtin_idempotent_example : normalize_gtin ascii gtin ≡ some gtin
normalize_gtin_idempotent_example = normalize_gtin_idempotent ascii upc gtin normal

normalize_all-Collects_example :
    Collects ascii (upc ∷ bytes "x" ∷ []) (normalize_all ascii (upc ∷ bytes "x" ∷ []))
normalize_all-Collects_example = normalize_all-Collects ascii (upc ∷ bytes "x" ∷ [])

-- The fifth digit, a 6, is read as an 8.
gtin_is_valid : gs1_checksum_valid ascii (bytes "0003" ++ 54 ∷ bytes "000291452") ≡ true
unfolding gs1_checksum_valid total_from
gtin_is_valid = refl

gs1_checksum_valid-detects_example :
    gs1_checksum_valid ascii (bytes "0003" ++ 56 ∷ bytes "000291452") ≡ false
gs1_checksum_valid-detects_example =
    gs1_checksum_valid-detects ascii (bytes "0003") 54 56 (bytes "000291452")
      (λ e. omega (arith, e)) gtin_is_valid
