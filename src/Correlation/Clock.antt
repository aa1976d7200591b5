-- ===== src/Correlation/Clock.antt =====
-- The stored timestamps of internal/correlation/correlation.go. They are texts in the layout
-- RFC3339Nano, which drops the trailing zeros of the fraction, and the database compares the texts,
-- byte by byte. A time is in nanoseconds since Go's zero time, the start of the year 1 in UTC, and
-- before the year 10000.
use gh_agent_broker.Prelude.{
  ℕ, zero, suc, ◌+◌, ◌-◌, ◌*◌, refl, sym, ◌∙◌, not, ◌&&◌, ◌||◌, ◌/◌, ◌%◌, ◌^◌, ◌<◌, ◌≡◌, arith,
  Bool, true, false, List, [], ◌∷◌, ◌++◌, ltb, eqb, if◌then◌else◌,
}

abbrev pub Time : Type 0
Time = ℕ

abbrev pub nanos : ℕ
nanos = 1000000000

-- The digits of `n` at `k` decimal places, the first one first.
unfoldable pub digits : ℕ → ℕ → List ℕ
digits zero n = []
digits (suc k) n = (b'0' + n / 10 ^ k % 10) ∷ digits k n

abbrev drop_zero : ℕ → List ℕ → List ℕ
drop_zero d [] = if eqb d b'0' then [] else d ∷ []
drop_zero d (x ∷ xs) = d ∷ x ∷ xs

unfoldable pub trim_zeros : List ℕ → List ℕ
trim_zeros [] = []
trim_zeros (d ∷ ds) = drop_zero d (trim_zeros ds)

-- What follows the second: the fraction, if it is not 0, and Z.
unfoldable pub fraction_text : ℕ → List ℕ
unfolding digits trim_zeros
fraction_text zero = b'Z' ∷ []
fraction_text (suc n) = b'.' ∷ (trim_zeros (digits 9 (suc n)) ++ b'Z' ∷ [])

-- The order of texts, byte by byte.
unfoldable pub bytes_le : List ℕ → List ℕ → Bool
bytes_le [] ys = true
bytes_le (x ∷ xs) [] = false
bytes_le (x ∷ xs) (y ∷ ys) =
    let rest = bytes_le xs ys in if ltb x y then true else if eqb x y then rest else false

-- The month and the day of the month of the day `d` of a year, counted from 0, where `m` is the first
-- month that is left and its length the first one of the list.
unfoldable pub month_day : ℕ → List ℕ → ℕ → ℕ × ℕ
month_day m [] d = (m, d + 1)
month_day m (l ∷ ls) d =
    let later = month_day (m + 1) ls (d - l) in if ltb d l then (m, d + 1) else later

abbrev pub month_lengths : Bool → List ℕ
month_lengths leap =
    31 ∷ (if leap then 29 else 28) ∷ 31 ∷ 30 ∷ 31 ∷ 30 ∷ 31 ∷ 31 ∷ 30 ∷ 31 ∷ 30 ∷ 31 ∷ []

abbrev at_most_3 : ℕ → ℕ
at_most_3 n = if ltb n 3 then n else 3

-- The year, the month and the day of the month, from the days since the start of the year 1.
unfoldable pub civil_date : ℕ → ℕ × ℕ × ℕ
unfolding month_day
civil_date days =
    let in_400 = days % 146097 in
    let centuries = at_most_3 (in_400 / 36524) in
    let in_100 = in_400 - centuries * 36524 in
    let fours = in_100 / 1461 in
    let in_4 = in_100 % 1461 in
    let years = at_most_3 (in_4 / 365) in
    let leap = eqb years 3 && (not (eqb fours 24) || eqb centuries 3) in
    let (month, day) = month_day 1 (month_lengths leap) (in_4 - years * 365) in
    (1 + days / 146097 * 400 + centuries * 100 + fours * 4 + years, month, day)

-- The first 19 characters: 2006-01-02T15:04:05, of the seconds since the start of the year 1.
unfoldable pub date_text : ℕ → List ℕ
unfolding digits civil_date
date_text s =
    let (year, month, day) = civil_date (s / 86400) in
    digits 4 year
    ++ b'-' ∷ digits 2 month
    ++ b'-' ∷ digits 2 day
    ++ b'T' ∷ digits 2 (s / 3600 % 24)
    ++ b':' ∷ digits 2 (s / 60 % 60)
    ++ b':' ∷ digits 2 (s % 60)

-- `formatTime`
unfoldable pub format_time : Time → List ℕ
format_time t = date_text (t / nanos) ++ fraction_text (t % nanos)

-- `formatTime(a) <= formatTime(b)` in SQL.
unfoldable pub text_le : Time → Time → Bool
unfolding format_time
text_le a b = bytes_le (format_time a) (format_time b)

bytes_le-append : (p xs ys : List ℕ) → bytes_le (p ++ xs) (p ++ ys) ≡ bytes_le xs ys
unfolding bytes_le
bytes_le-append [] xs ys = refl
bytes_le-append (x ∷ p) xs ys = ground (arith, bytes_le-append p xs ys)

le_of_fractions :
    (a b : Time)
    → a / nanos ≡ b / nanos
    → text_le a b ≡ bytes_le (fraction_text (a % nanos)) (fraction_text (b % nanos))
unfolding text_le format_time
le_of_fractions a b e = rw e (
    bytes_le-append (date_text (b / nanos)) (fraction_text (a % nanos)) (fraction_text (b % nanos)))

-- The order of the texts is not that of the times: the text of a whole second comes after that of each
-- later time of the second, since the point comes before the zone.
pub text_le_misorders :
    (s n : ℕ)
    → 0 < n
    → n < nanos
    → (text_le (s * nanos + n) (s * nanos) ≡ true) × (text_le (s * nanos) (s * nanos + n) ≡ false)
unfolding bytes_le fraction_text trim_zeros
text_le_misorders s zero p h = absurd (omega arith)
text_le_misorders s (suc n) p h =
    let d1 : (s * nanos + suc n) / nanos ≡ s = omega arith in
    let m1 : (s * nanos + suc n) % nanos ≡ suc n = omega arith in
    let d2 : s * nanos / nanos ≡ s = omega arith in
    let m2 : s * nanos % nanos ≡ 0 = omega arith in
    (
      rw (le_of_fractions (s * nanos + suc n) (s * nanos) (d1 ∙ sym d2), m1, m2) refl,
      rw (le_of_fractions (s * nanos) (s * nanos + suc n) (d2 ∙ sym d1), m1, m2) refl,
    )

-- The text of a moment: 2024-02-29T13:45:06.5Z.
format_time_test :
    format_time (63844811106 * nanos + 500000000)
    ≡ b'2' ∷ b'0' ∷ b'2' ∷ b'4' ∷ b'-' ∷ b'0' ∷ b'2' ∷ b'-' ∷ b'2' ∷ b'9' ∷ b'T' ∷ b'1' ∷ b'3'
      ∷ b':' ∷ b'4' ∷ b'5' ∷ b':' ∷ b'0' ∷ b'6' ∷ b'.' ∷ b'5' ∷ b'Z' ∷ []
unfolding format_time date_text fraction_text
format_time_test = refl
