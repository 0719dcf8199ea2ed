-- ===== src/Core/Ids/Tests.antt =====
-- An identifier, and the theorem at it.
use fishing_deal_tracker.Prelude.{ℕ, ◌≡◌, refl, List, arith, length}
use fishing_deal_tracker.Fetch.Blocks.{bytes}
use fishing_deal_tracker.Core.Ids.{crockford_chars, encode_crockford, new_pub_id}
use fishing_deal_tracker.Core.Ids.Decode.{new_pub_id-read, read_pub_id}

abbrev prefix : List ℕ
prefix = bytes "dl"

written : new_pub_id prefix 1_700_000_000_000 1025 ≡ bytes "dl_01HF7YAT000000000000000101"
unfolding new_pub_id encode_crockford crockford_chars
written = refl

new_pub_id-read_example :
    read_pub_id (length prefix) (new_pub_id prefix 1_700_000_000_000 1025)
    ≡ (1_700_000_000_000, 1025)
new_pub_id-read_example = new_pub_id-read prefix 1_700_000_000_000 1025 (omega arith) (omega arith)
