-- ===== src/Core/Ids.antt =====
-- fpt/core/ids.py: the public identifiers. The clock and the random bytes are arguments.
pub mod Decode
mod Tests
use fishing_deal_tracker.Prelude.{ℕ, zero, suc, ◌/◌, ◌%◌, List, [], ◌∷◌, ◌++◌, get_or, reversed}
use fishing_deal_tracker.Fetch.Blocks.{bytes}

-- `_CROCKFORD32`
abbrev pub crockford32 : List ℕ
crockford32 = bytes "0123456789ABCDEFGHJKMNPQRSTVWXYZ"

-- `chars` after the loop: the last digit first.
unfoldable pub crockford_chars : (value length : ℕ) → List ℕ
crockford_chars value zero = []
crockford_chars value (suc n) = get_or crockford32 (value % 32) 0 ∷ crockford_chars (value / 32) n

unfoldable pub encode_crockford : (value length : ℕ) → List ℕ
encode_crockford value length = reversed (crockford_chars value length)

-- `new_pub_id` at a time, with ten random bytes read as a number.
unfoldable pub new_pub_id : (prefix : List ℕ) (timestamp_ms randomness : ℕ) → List ℕ
new_pub_id prefix timestamp_ms randomness =
    prefix ++ (bytes "_" ++ (encode_crockford timestamp_ms 10 ++ encode_crockford randomness 16))
