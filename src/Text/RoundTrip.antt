-- ===== src/Text/RoundTrip.antt =====
-- Printing a number and reading it back, and the last part of a split text.
use k8s_swarm.Prelude.{
  ℕ, zero, suc, ◌+◌, ◌/◌, ◌%◌, ◌^◌, ◌<◌, List, [], ◌∷◌, ◌++◌, some, ◌≡◌, ◌≢◌, refl, ap, ◌⊎◌, inl,
  inr, true, false, arith, Bytes, length, ◌==◌, if◌then◌else◌, Bool-cases,
}
use k8s_swarm.Text.{digits, format, is_digit, scan, parse_int, in_front, split}

scan-digits : (fuel n : ℕ) (out : Bytes) → n < fuel → scan (digits fuel n out) 0 ≡ scan out n
unfolding digits scan
scan-digits zero n out h = elim h [ ]
scan-digits (suc fuel) n out h = ground (arith, scan-digits fuel (n / 10) ((b'0' + n % 10) ∷ out))

-- Every byte is a digit.
abbrev pub AllDigits : Bytes → Type 0
AllDigits [] = Unit {0}
AllDigits (c ∷ s) = (is_digit c ≡ true) × AllDigits s

digits-AllDigits : (fuel n : ℕ) (out : Bytes) → AllDigits out → AllDigits (digits fuel n out)
unfolding digits is_digit
digits-AllDigits zero n out h = h
digits-AllDigits (suc fuel) n out h =
    ground (arith, digits-AllDigits fuel (n / 10) ((b'0' + n % 10) ∷ out))

pub format-AllDigits : (n : ℕ) → AllDigits (format n)
unfolding format
format-AllDigits n = digits-AllDigits (suc n) n [] tt

digits-ne-nil : (fuel n c : ℕ) (out : Bytes) → digits fuel n (c ∷ out) ≢ []
unfolding digits
digits-ne-nil zero n c out = λ e. cc
digits-ne-nil (suc fuel) n c out =
    ground (arith, digits-ne-nil fuel (n / 10) (b'0' + n % 10) (c ∷ out))

format-ne-nil : (n : ℕ) → format n ≢ []
unfolding format digits
format-ne-nil n = ground (arith, digits-ne-nil n (n / 10) (b'0' + n % 10) [])

scan-format : (n : ℕ) → scan (format n) 0 ≡ some n
unfolding format scan
scan-format n = scan-digits (suc n) n [] (omega arith)

pub format-injective : (m n : ℕ) → format m ≡ format n → m ≡ n
format-injective m n e = ground (arith, scan-format m, scan-format n, ap (λ s. scan s 0) e)

parse_int_of_scan :
    (s : Bytes) (n : ℕ)
    → s ≢ []
    → AllDigits s
    → n < 2 ^ 63
    → scan s 0 ≡ some n
    → parse_int s ≡ some n
unfolding parse_int is_digit
parse_int_of_scan [] n ne d h e = absurd (ne refl)
parse_int_of_scan (c ∷ s) n ne d h e = ground arith

-- Every int64 that is not negative is read back from its decimal print.
pub parse_int-format : (n : ℕ) → n < 2 ^ 63 → parse_int (format n) ≡ some n
parse_int-format n h =
    parse_int_of_scan (format n) n (format-ne-nil n) (format-AllDigits n) h (scan-format n)

-- No byte of the text is the separator.
abbrev pub Lacks : ℕ → Bytes → Type 0
Lacks sep [] = Unit {0}
Lacks sep (c ∷ s) = ((c == sep) ≡ false) × Lacks sep s

pub AllDigits-Lacks : (s : Bytes) → AllDigits s → Lacks b'-' s
unfolding is_digit
AllDigits-Lacks [] d = tt
AllDigits-Lacks (c ∷ s) d = (ground arith, AllDigits-Lacks s d.1)

split-Lacks : (sep : ℕ) (s : Bytes) → Lacks sep s → split sep s ≡ s ∷ []
unfolding split
split-Lacks sep [] l = refl
split-Lacks sep (c ∷ s) l = rw (l.0, split-Lacks sep s l.1)

split-ne-nil : (sep : ℕ) (s : Bytes) → split sep s ≢ []
unfolding split
split-ne-nil sep [] = λ e. cc
split-ne-nil sep (c ∷ s) = in_cases (split sep s) (Bool-cases (c == sep))
  where
    in_cases :
        (ps : List Bytes)
        → ((c == sep) ≡ true) ⊎ ((c == sep) ≡ false)
        → (if c == sep then [] ∷ ps else in_front c ps) ≢ []
    in_cases ps (inl e) = rw e (λ q. cc)
    in_cases [] (inr e) = rw e (λ q. cc)
    in_cases (p ∷ ps) (inr e) = rw e (λ q. cc)

in_front-append :
    (c : ℕ) (ps qs : List Bytes) → ps ≢ [] → in_front c (ps ++ qs) ≡ in_front c ps ++ qs
in_front-append c [] qs h = absurd (h refl)
in_front-append c (p ∷ ps) qs h = refl

-- What stands behind the last separator is the last part.
pub split-append :
    (sep : ℕ) (s t : Bytes) → Lacks sep t → split sep (s ++ sep ∷ t) ≡ split sep s ++ t ∷ []
unfolding split
split-append sep [] t l = ground (arith, split-Lacks sep t l)
split-append sep (c ∷ s) t l =
    ground
      (arith, split-append sep s t l, in_front-append c (split sep s) (t ∷ []), split-ne-nil sep s)

pub split-pos : (sep : ℕ) (s : Bytes) → 0 < length (split sep s)
split-pos sep s = nonempty (split sep s) (split-ne-nil sep s)
  where
    nonempty : (ps : List Bytes) → ps ≢ [] → 0 < length ps
    nonempty [] h = absurd (h refl)
    nonempty (p ∷ ps) h = omega arith
