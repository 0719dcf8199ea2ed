-- ===== src/Fetch/Blocks.antt =====
-- fpt/fetch/blocks.py: whether a response is a page, a block or an empty shell. Bytes are numbers.
pub mod Substring
pub mod Outcome
mod Tests
use Prim.Native.Char.{code}
use fishing_deal_tracker.Prelude.{
  ℕ, ◌+◌, String, Bool, true, false, not, ◌&&◌, ◌||◌, Option, none, some, List, [], ◌∷◌, leb, map,
  if◌then◌else◌, ◌==◌,
}
use fishing_deal_tracker.Domain.{ResponseOutcome}

-- The bytes of an ASCII literal.
abbrev pub bytes : String → List ℕ
bytes String.[] = []
bytes (String.◌∷◌ c s) = code c ∷ bytes s

-- `bytes.lower`, of one byte.
abbrev pub lower : ℕ → ℕ
lower b = if leb 65 b && leb b 90 then b + 32 else b

-- `body.startswith(sub)`
abbrev pub starts_with : (sub body : List ℕ) → Bool
starts_with [] body = true
starts_with (a ∷ sub) [] = false
starts_with (a ∷ sub) (b ∷ body) = a == b && starts_with sub body

-- `sub in body`
unfoldable pub includes : (sub body : List ℕ) → Bool
includes sub [] = starts_with sub []
includes sub (b ∷ body) = starts_with sub (b ∷ body) || includes sub body

-- `any(s in body for s in subs)`
abbrev pub includes_any : (subs : List (List ℕ)) (body : List ℕ) → Bool
includes_any [] body = false
includes_any (sub ∷ subs) body = includes sub body || includes_any subs body

-- A byte that `bytes.strip` takes off.
abbrev pub is_space : ℕ → Bool
is_space b = leb 9 b && leb b 13 || b == 32

-- `not body.strip()`
abbrev pub is_blank : List ℕ → Bool
is_blank [] = true
is_blank (b ∷ body) = is_space b && is_blank body

-- `BLOCK_SIGNATURES`
abbrev pub block_signatures : List String
block_signatures =
    "edgesuite" ∷ "access denied" ∷ "site unavailable" ∷ "cf-chl" ∷ "captcha" ∷ "press & hold"
    ∷ "press and hold" ∷ "_abck" ∷ []

-- `http_status n` is the string f"http_{n}".
pub data BlockSignature : Type 0 where
  signature : String → BlockSignature
  http_status : ℕ → BlockSignature

pub record BlockCheckResult : Type 0 where
  pub outcome : ResponseOutcome
  pub block_signature : Option BlockSignature

-- The first signature that the body includes.
abbrev pub first_signature : List String → (body : List ℕ) → Option String
first_signature [] body = none
first_signature (s ∷ rest) body =
    let later = first_signature rest body in if includes (bytes s) body then some s else later

-- `sentinels and not any(s in body for s in sentinels)`
abbrev pub lacks_sentinels : (sentinels : List (List ℕ)) (body : List ℕ) → Bool
lacks_sentinels [] body = false
lacks_sentinels (s ∷ sentinels) body = not (includes_any (s ∷ sentinels) body)

abbrev pub result_with : ResponseOutcome → Option BlockSignature → BlockCheckResult
result_with outcome found = record { outcome = outcome; block_signature = found }

-- The checks after that of the signatures. The one of the length does nothing.
abbrev pub detect_unsigned :
    (status : ℕ) (body : List ℕ) (sentinels : List (List ℕ)) → BlockCheckResult
detect_unsigned status body sentinels =
    if status == 403 || status == 429
    then result_with ResponseOutcome.blocked (some (BlockSignature.http_status status))
    else if status == 404
    then result_with ResponseOutcome.not_found none
    else if lacks_sentinels sentinels body
    then result_with ResponseOutcome.empty none
    else if is_blank body
    then result_with ResponseOutcome.empty none
    else result_with ResponseOutcome.ok none

-- A signature comes before all other checks.
abbrev pub detect_on :
    Option String → (status : ℕ) (body : List ℕ) (sentinels : List (List ℕ)) → BlockCheckResult
detect_on (some s) status body sentinels =
    result_with ResponseOutcome.blocked (some (BlockSignature.signature s))
detect_on none status body sentinels = detect_unsigned status body sentinels

-- Of the two URLs nothing is read.
unfoldable pub detect_block_or_empty :
    (status : ℕ) (body : List ℕ) (final_url request_url : String) (sentinels : List (List ℕ))
    → BlockCheckResult
detect_block_or_empty status body final_url request_url sentinels =
    detect_on (first_signature block_signatures (map lower body)) status body sentinels
