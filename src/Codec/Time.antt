-- ===== src/Codec/Time.antt =====
-- `Time.Format(time.RFC3339Nano)` of Go's time at a time in UTC. A time is the number of its
-- nanoseconds since the first instant of the year 0.
use decentralized_messenger.Common.{
  ℕ, ◌+◌, ◌-◌, ◌*◌, ◌/◌, ◌%◌, ◌^◌, ◌≡◌, refl, [], ◌∷◌, ◌++◌, ltb, leb, Bool, true, false, zero, suc,
  ◌<◌, arith, All, All-append, ◌==◌, if◌then◌else◌, Bytes, codes, length, replicate,
}
use decentralized_messenger.Codec.Decimal.{format_uint, format_uint-digits, digits_ascii}

abbrev pub Time : Type 0
Time = ℕ

-- A date of the proleptic Gregorian calendar.
record Date : Type 0 where
  year : ℕ
  month : ℕ
  day : ℕ

-- The date of a day counted from 0000-01-01. The years of the computation begin on 1 March, and
-- one era of 400 years is added first, so that January and February of the year 0 have a place.
date_of_day : ℕ → Date
date_of_day n =
    let z = n + 146037 in
    let era = z / 146097 in
    let doe = z % 146097 in
    let yoe = (doe + doe / 36524 - doe / 1460 - doe / 146096) / 365 in
    let doy = doe + yoe / 100 - (365 * yoe + yoe / 4) in
    let mp = (5 * doy + 2) / 153 in
    let month = if ltb mp 10 then mp + 3 else mp - 9 in
    record {
      year = era * 400 + yoe + (if leb month 2 then 1 else 0) - 400;
      month = month;
      day = doy - (153 * mp + 2) / 5 + 1;
    }

-- `appendInt`: decimal, with zeros in front up to a width.
padded : ℕ → ℕ → Bytes
unfolding format_uint
padded width n = let s = format_uint n in replicate (width - length s) b'0' ++ s

without_trailing_zeros : Bytes → Bytes
without_trailing_zeros [] = []
without_trailing_zeros (c ∷ s) =
    let rest = without_trailing_zeros s in
    if c == b'0' then (if length rest == 0 then [] else c ∷ rest) else c ∷ rest

fraction : ℕ → Bytes
unfolding padded without_trailing_zeros
fraction ns = if ns == 0 then [] else b'.' ∷ without_trailing_zeros (padded 9 ns)

unfoldable pub format_rfc3339_nano : Time → Bytes
unfolding date_of_day fraction
format_rfc3339_nano t =
    let seconds = t / 10 ^ 9 in
    let date = date_of_day (seconds / 86400) in
    padded 4 date.year
    ++ b'-' ∷ padded 2 date.month
    ++ b'-' ∷ padded 2 date.day
    ++ b'T' ∷ padded 2 (seconds / 3600 % 24)
    ++ b':' ∷ padded 2 (seconds / 60 % 60)
    ++ b':' ∷ padded 2 (seconds % 60)
    ++ fraction (t % 10 ^ 9)
    ++ b'Z' ∷ []

-- The epoch of Unix, and a leap day with a fraction.
format_epoch : format_rfc3339_nano (719528 * 86400 * 10 ^ 9) ≡ codes "1970-01-01T00:00:00Z"
unfolding format_rfc3339_nano
format_epoch = refl

format_leap_day :
    format_rfc3339_nano ((719528 * 86400 + 1709210096) * 10 ^ 9 + 120_000_000)
    ≡ codes "2024-02-29T12:34:56.12Z"
unfolding format_rfc3339_nano
format_leap_day = refl

format_year_0 :
    format_rfc3339_nano (31 * 86400 * 10 ^ 9 + 1) ≡ codes "0000-02-01T00:00:00.000000001Z"
unfolding format_rfc3339_nano
format_year_0 = refl

abbrev AreAscii : Bytes → Type 0
AreAscii s = All (λ c. c < 128) s

replicate_ascii : (n : ℕ) → AreAscii (replicate n b'0')
replicate_ascii zero = tt
replicate_ascii (suc n) = (omega arith, replicate_ascii n)

padded-ascii : (width n : ℕ) → AreAscii (padded width n)
unfolding padded
padded-ascii width n =
    All-append _ (replicate (width - length (format_uint n)) b'0') (format_uint n)
      (replicate_ascii (width - length (format_uint n)))
      (digits_ascii (format_uint n) (format_uint-digits n))

without_trailing_zeros-ascii : (s : Bytes) → AreAscii s → AreAscii (without_trailing_zeros s)
unfolding without_trailing_zeros
without_trailing_zeros-ascii [] h = tt
without_trailing_zeros-ascii (c ∷ s) (hc, hs) =
    ground (arith, hc, without_trailing_zeros-ascii s hs)

if-ascii : (b : Bool) (s t : Bytes) → AreAscii s → AreAscii t → AreAscii (if b then s else t)
if-ascii true s t hs ht = hs
if-ascii false s t hs ht = ht

fraction-ascii : (ns : ℕ) → AreAscii (fraction ns)
unfolding fraction
fraction-ascii ns =
    let digits = without_trailing_zeros-ascii (padded 9 ns) (padded-ascii 9 ns) in
    if-ascii (ns == 0) [] (b'.' ∷ without_trailing_zeros (padded 9 ns)) tt (omega arith, digits)

-- A separator and a group of two digits behind some text.
group-ascii : (s : Bytes) (sep n : ℕ) → AreAscii s → sep < 128 → AreAscii (s ++ sep ∷ padded 2 n)
group-ascii s sep n hs h = All-append (λ c. c < 128) s (sep ∷ padded 2 n) hs (h, padded-ascii 2 n)

pub format_rfc3339_nano-ascii : (t : Time) → AreAscii (format_rfc3339_nano t)
unfolding format_rfc3339_nano
format_rfc3339_nano-ascii t =
    let seconds = t / 10 ^ 9 in
    let date = date_of_day (seconds / 86400) in
    let year = padded 4 date.year in
    let month = year ++ b'-' ∷ padded 2 date.month in
    let day = month ++ b'-' ∷ padded 2 date.day in
    let hour = day ++ b'T' ∷ padded 2 (seconds / 3600 % 24) in
    let minute = hour ++ b':' ∷ padded 2 (seconds / 60 % 60) in
    let second = minute ++ b':' ∷ padded 2 (seconds % 60) in
    let month' = group-ascii year b'-' date.month (padded-ascii 4 date.year) (omega arith) in
    let day' = group-ascii month b'-' date.day month' (omega arith) in
    let hour' = group-ascii day b'T' (seconds / 3600 % 24) day' (omega arith) in
    let minute' = group-ascii hour b':' (seconds / 60 % 60) hour' (omega arith) in
    let second' = group-ascii minute b':' (seconds % 60) minute' (omega arith) in
    let ns = t % 10 ^ 9 in
    All-append (λ c. c < 128) (second ++ fraction ns) (b'Z' ∷ [])
      (All-append (λ c. c < 128) second (fraction ns) second' (fraction-ascii ns)) (omega arith, tt)
