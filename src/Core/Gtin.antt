-- ===== src/Core/Gtin.antt =====
-- fpt/core/gtin.py: barcodes in one form, with their check digit. A text is the list of its code
-- points, and what Python takes for a decimal digit is a parameter.
pub mod Checksum
pub mod Normal
mod Tests
use fishing_deal_tracker.Prelude.{
  ℕ, suc, ◌+◌, ◌-◌, ◌*◌, ◌%◌, ◌<◌, ◌≡◌, Bool, true, false, not, ◌&&◌, ◌||◌, Option, none, some,
  List, [], ◌∷◌, ◌++◌, length, replicate, reversed, or_default, is_some, leb, if◌then◌else◌, ◌==◌,
}
use fishing_deal_tracker.Prelude.Order.{keep}

-- The value of a code point that `\d` matches, as `int` reads it; "0" is the code point 48.
pub record Decimals : Type 0 where
  pub value : ℕ → Option ℕ
  pub value-lt : (c v : ℕ) → value c ≡ some v → v < 10
  pub value-zero : value 48 ≡ some 0

abbrev pub ascii_value : ℕ → Option ℕ
ascii_value c = if leb 48 c && leb c 57 then some (c - 48) else none

abbrev pub weight : (i : ℕ) → ℕ
weight i = if i % 2 == 0 then 3 else 1

-- `for i, d in enumerate(reversed(body)): total += d * weight`, from the i-th on.
unfoldable pub total_from : (i total : ℕ) → (digits : List ℕ) → ℕ
total_from i total [] = total
total_from i total (d ∷ digits) = total_from (i + 1) (total + d * weight i) digits

-- `computed_check == check_digit`, of the digits from the last to the first.
abbrev pub check_matches : (digits : List ℕ) → Bool
check_matches [] = false
check_matches (check ∷ body) = (10 - total_from 0 0 body % 10) % 10 == check

abbrev pub text_beq : List ℕ → List ℕ → Bool
text_beq [] [] = true
text_beq [] (b ∷ t) = false
text_beq (a ∷ s) [] = false
text_beq (a ∷ s) (b ∷ t) = a == b && text_beq s t

-- `value in out`
abbrev pub is_in : List ℕ → List (List ℕ) → Bool
is_in text [] = false
is_in text (t ∷ ts) = text_beq text t || is_in text ts

-- `len(digits) in (8, 12, 13, 14)`
abbrev pub is_plausible : ℕ → Bool
is_plausible n = n == 8 || n == 12 || n == 13 || n == 14

-- `digits.zfill(14)`, of a text with no sign.
abbrev pub zfill : List ℕ → List ℕ
zfill digits = replicate (14 - length digits) 48 ++ digits

abbrev pub append_new : (out : List (List ℕ)) → Option (List ℕ) → List (List ℕ)
append_new out none = out
append_new out (some gtin) = if is_in gtin out then out else out ++ (gtin ∷ [])

module _ (dec : Decimals) where
  -- `int(d)`, of a digit.
  abbrev pub digit_value : ℕ → ℕ
  digit_value c = or_default (dec.value c) 0

  abbrev pub is_decimal : ℕ → Bool
  is_decimal c = is_some (dec.value c)

  abbrev pub all_decimal : List ℕ → Bool
  all_decimal [] = true
  all_decimal (c ∷ text) = is_decimal c && all_decimal text

  abbrev pub digit_values : List ℕ → List ℕ
  digit_values [] = []
  digit_values (c ∷ text) = digit_value c ∷ digit_values text

  -- Of texts whose `isdigit` characters are all decimal. `normalize_gtin` gives it no other, since
  -- its pattern finds only these; on a superscript, which `isdigit` lets through, `int` raises.
  unfoldable pub gs1_checksum_valid : List ℕ → Bool
  gs1_checksum_valid text =
      if not (length text == 14) || not (all_decimal text)
      then false
      else check_matches (reversed (digit_values text))

  -- `"".join(_DIGITS_RE.findall(raw))`
  abbrev pub digits_of : List ℕ → List ℕ
  digits_of raw = keep is_decimal raw

  unfoldable pub normalize_gtin : (raw : List ℕ) → Option (List ℕ)
  normalize_gtin raw =
      if length (digits_of raw) == 0
      then none
      else if not (is_plausible (length (digits_of raw)))
      then none
      else if not (gs1_checksum_valid (zfill (digits_of raw)))
      then none
      else some (zfill (digits_of raw))

  abbrev pub normalize_onto : (out : List (List ℕ)) → (raw_values : List (List ℕ)) → List (List ℕ)
  normalize_onto out [] = out
  normalize_onto out (raw ∷ rest) = normalize_onto (append_new out (normalize_gtin raw)) rest

  unfoldable pub normalize_all : (raw_values : List (List ℕ)) → List (List ℕ)
  normalize_all raw_values = normalize_onto [] raw_values
