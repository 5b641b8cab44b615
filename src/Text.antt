-- ===== src/Text.antt =====
-- What the program uses of Go's fmt, strings and strconv on byte strings: `%d` of a number that is
-- not negative, strings.Split at a one-byte separator, and strconv.ParseInt(s, 10, 64).
pub mod RoundTrip
use k8s_swarm.Prelude.{
  ℕ, zero, suc, ◌+◌, ◌-◌, ◌*◌, ◌/◌, ◌%◌, ◌^◌, List, [], ◌∷◌, Option, none, some, ◌≡◌, refl, Bool,
  ◌&&◌, Bytes, codes, ltb, leb, ◌==◌, if◌then◌else◌, ◌>>=◌,
}

-- The decimal digits of `n` in front of `out`; a fuel above `n` is enough, since `n` falls.
unfoldable pub digits : ℕ → ℕ → Bytes → Bytes
digits zero n out = out
digits (suc fuel) n out =
    let more = digits fuel (n / 10) ((b'0' + n % 10) ∷ out) in
    if ltb n 10 then (b'0' + n % 10) ∷ out else more

-- `%d`.
unfoldable pub format : ℕ → Bytes
unfolding digits
format n = digits (suc n) n []

unfoldable pub is_digit : ℕ → Bool
is_digit c = leb b'0' c && leb c b'9'

-- The loop of strconv.ParseUint in base 10. The machine stops with a range error as soon as the
-- number passes 64 bits; here the number has no bound and the caller tests it at the end.
unfoldable pub scan : Bytes → ℕ → Option ℕ
unfolding is_digit
scan [] n = some n
scan (c ∷ s) n = if is_digit c then scan s (n * 10 + (c - b'0')) else none

unfoldable pub parse_digits : Bytes → Option ℕ
unfolding scan
parse_digits [] = none
parse_digits (c ∷ s) = scan (c ∷ s) 0 >>= λ n. if ltb n (2 ^ 63) then some n else none

-- strconv.ParseInt(s, 10, 64) of a text with no `-`: `none` stands for its syntax and range errors.
unfoldable pub parse_int : Bytes → Option ℕ
unfolding parse_digits
parse_int [] = none
parse_int (c ∷ s) = if c == b'+' then parse_digits s else parse_digits (c ∷ s)

abbrev pub in_front : ℕ → List Bytes → List Bytes
in_front c [] = (c ∷ []) ∷ []
in_front c (p ∷ ps) = (c ∷ p) ∷ ps

-- strings.Split at one byte: always one part at least.
unfoldable pub split : ℕ → Bytes → List Bytes
split sep [] = [] ∷ []
split sep (c ∷ s) = let parts = split sep s in if c == sep then [] ∷ parts else in_front c parts

format_1203 : format 1203 ≡ codes "1203"
unfolding format
format_1203 = refl

parse_int_runs : parse_int (codes "+0012") ≡ some 12
unfolding parse_int
parse_int_runs = refl

split_runs : split b'-' (codes "a--b-1") ≡ codes "a" ∷ [] ∷ codes "b" ∷ codes "1" ∷ []
unfolding split
split_runs = refl
