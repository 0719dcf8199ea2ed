-- ===== src/Core/Ids/Decode.antt =====
-- That an identifier of fpt/core/ids.py keeps the time and the random number it is made of.
use mathlib.Core.Path.{subst, sym}
use fishing_deal_tracker.Prelude.{
  ℕ, zero, suc, ◌+◌, ◌*◌, ◌/◌, ◌%◌, ◌^◌, ◌<◌, ◌≡◌, refl, ap, ◌∙◌, Bool, true, ◌&&◌, List, [], ◌∷◌,
  ◌++◌, arith, length, get_or, reverse_onto, length-reverse_onto, take, drop, take-append,
  drop-append, Bool-cases, inl, inr, if◌then◌else◌, ◌==◌, ==_iff,
}
use fishing_deal_tracker.Fetch.Blocks.{bytes}
use fishing_deal_tracker.Core.Ids.{crockford32, crockford_chars, encode_crockford, new_pub_id}

-- The place of a letter in the alphabet.
abbrev pub position : (letters : List ℕ) (c : ℕ) → ℕ
position [] c = 0
position (l ∷ letters) c = let later = position letters c in if l == c then 0 else suc later

-- The number that a text writes in base 32, the most significant digit first.
abbrev pub decode_from : (value : ℕ) → List ℕ → ℕ
decode_from value [] = value
decode_from value (c ∷ text) = decode_from (value * 32 + position crockford32 c) text

all_below : ℕ → (ℕ → Bool) → Bool
all_below zero p = true
all_below (suc n) p = p n && all_below n p

all_below-lt : (n : ℕ) (p : ℕ → Bool) (i : ℕ) → all_below n p ≡ true → i < n → p i ≡ true
unfolding all_below
all_below-lt zero p i e h = absurd (omega (arith, h))
all_below-lt (suc n) p i e h = elim (Bool-cases (i == n)) [
  | inl q ↦ rw ((==_iff i n).0 q) (ground (arith, e))
  | inr q ↦ all_below-lt n p i (ground (arith, e)) (ground (arith, h, q))
]

returns_place : ℕ → Bool
returns_place i = position crockford32 (get_or crockford32 i 0) == i

all_places : all_below 32 returns_place ≡ true
unfolding all_below returns_place
all_places = refl

place-lt : (i : ℕ) → i < 32 → position crockford32 (get_or crockford32 i 0) ≡ i
unfolding returns_place
place-lt i h = (==_iff _ i).0 (all_below-lt 32 returns_place i all_places h)

-- The same, of a text with the least significant digit first.
value_of : List ℕ → ℕ
value_of [] = 0
value_of (c ∷ text) = position crockford32 c + 32 * value_of text

value_of-chars : (n value : ℕ) → value < 32 ^ n → value_of (crockford_chars value n) ≡ value
unfolding value_of crockford_chars
value_of-chars zero value h = omega (arith, h)
value_of-chars (suc n) value h =
    let rest = value_of-chars n (value / 32) (omega (arith, h)) in
    rw (place-lt (value % 32) (omega arith), rest) (omega arith)

decode_from-reverse :
    (chars done : List ℕ)
    → decode_from 0 (reverse_onto done chars) ≡ decode_from (value_of chars) done
unfolding value_of
decode_from-reverse [] done = refl
decode_from-reverse (c ∷ chars) done =
    let same : position crockford32 c + 32 * value_of chars
        ≡ value_of chars * 32 + position crockford32 c =
      omega arith in
    decode_from-reverse chars (c ∷ done) ∙ ap (λ v. decode_from v done) (sym same)

-- A number that fits the length is read back from its text.
pub encode_crockford-decode :
    (value n : ℕ) → value < 32 ^ n → decode_from 0 (encode_crockford value n) ≡ value
unfolding encode_crockford
encode_crockford-decode value n h =
    decode_from-reverse (crockford_chars value n) [] ∙ value_of-chars n value h

length-crockford_chars : (n value : ℕ) → length (crockford_chars value n) ≡ n
unfolding crockford_chars
length-crockford_chars zero value = refl
length-crockford_chars (suc n) value = omega (arith, length-crockford_chars n (value / 32))

length-encode : (value n : ℕ) → length (encode_crockford value n) ≡ n
unfolding encode_crockford
length-encode value n =
    omega (arith, length-reverse_onto [] (crockford_chars value n), length-crockford_chars n value)

-- The time and the random number of an identifier whose prefix has so many letters.
abbrev pub read_pub_id : (prefix_length : ℕ) → List ℕ → ℕ × ℕ
read_pub_id prefix_length text = (
  decode_from 0 (take 10 (drop 1 (drop prefix_length text))),
  decode_from 0 (drop 10 (drop 1 (drop prefix_length text))),
)

take-prefix : (xs ys : List ℕ) (n : ℕ) → length xs ≡ n → take n (xs ++ ys) ≡ xs
take-prefix xs ys n e = subst (λ k. take k (xs ++ ys) ≡ xs) e (take-append xs ys)

drop-prefix : (xs ys : List ℕ) (n : ℕ) → length xs ≡ n → drop n (xs ++ ys) ≡ ys
drop-prefix xs ys n e = subst (λ k. drop k (xs ++ ys) ≡ ys) e (drop-append xs ys)

-- An identifier gives back the millisecond and the random number that it was made of, for a time
-- below 32 ^ 10 milliseconds and ten bytes: two identifiers of a kind are equal only where both
-- agree, so the shortening to 26 letters loses nothing.
pub new_pub_id-read :
    (prefix : List ℕ) (timestamp_ms randomness : ℕ)
    → timestamp_ms < 32 ^ 10
    → randomness < 256 ^ 10
    → read_pub_id (length prefix) (new_pub_id prefix timestamp_ms randomness)
      ≡ (timestamp_ms, randomness)
unfolding new_pub_id
new_pub_id-read prefix timestamp_ms randomness h k =
    let time = encode_crockford timestamp_ms 10 in
    let random = encode_crockford randomness 16 in
    let n = length-encode timestamp_ms 10 in
    let body = ap (λ l. drop 1 l) (drop-append prefix (bytes "_" ++ (time ++ random))) in
    let first =
      ap (λ l. decode_from 0 (take 10 l)) body
      ∙ ap (decode_from 0) (take-prefix time random 10 n) in
    let second =
      ap (λ l. decode_from 0 (drop 10 l)) body
      ∙ ap (decode_from 0) (drop-prefix time random 10 n) in
    let a = first ∙ encode_crockford-decode timestamp_ms 10 h in
    let b = second ∙ encode_crockford-decode randomness 16 (omega (arith, k)) in rw (a, b) refl
