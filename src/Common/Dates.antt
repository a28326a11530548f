-- ===== src/Common/Dates.antt =====
-- `Date.prototype.toISOString`, for a time in milliseconds since 1970 that is not before it.
use Prim.Native.Nat.{ℕ, zero, suc, ◌+◌, ◌-◌, ◌*◌, ◌/◌, ◌%◌}
use Prim.Native.String
use Prim.Native.String.{String}
use mathlib.Core.Path.{◌≡◌, refl}
use metricops_backend.Common.Tests.{ltb, nat_beq, if◌then◌else◌}

digit : ℕ → String
digit n =
    if nat_beq n 0
    then "0"
    else if nat_beq n 1
    then "1"
    else if nat_beq n 2
    then "2"
    else if nat_beq n 3
    then "3"
    else if nat_beq n 4
    then "4"
    else if nat_beq n 5
    then "5"
    else if nat_beq n 6
    then "6"
    else if nat_beq n 7
    then "7"
    else if nat_beq n 8
    then "8"
    else "9"

infixr 65 ◌<>◌
abbrev ◌<>◌ : String → String → String
s <> t = String.◌++◌ s t

-- the last `width` decimal digits
padded : ℕ → ℕ → String
padded zero n = ""
padded (suc width) n = padded width (n / 10) <> digit (n % 10)

-- The civil date of a day counted from 1970-01-01: its year, month and day.
civil : ℕ → ℕ × ℕ × ℕ
civil days =
    let z = days + 719468 in
    let era = z / 146097 in
    let doe = z % 146097 in
    let yoe = (doe - doe / 1460 + doe / 36524 - doe / 146096) / 365 in
    let doy = doe - (365 * yoe + yoe / 4 - yoe / 100) in
    let mp = (5 * doy + 2) / 153 in
    let day = doy - (153 * mp + 2) / 5 + 1 in
    let month = if ltb mp 10 then mp + 3 else mp - 9 in
    (yoe + era * 400 + (if ltb month 3 then 1 else 0), month, day)

year_text : ℕ → String
year_text year = if ltb year 10000 then padded 4 year else "+" <> padded 6 year

date_text : ℕ × ℕ × ℕ → String
date_text (year, month, day) = year_text year <> "-" <> padded 2 month <> "-" <> padded 2 day

unfoldable pub to_iso_string : ℕ → String
unfolding digit padded civil year_text date_text
to_iso_string ms =
    date_text (civil (ms / 86400000))
    <> "T"
    <> padded 2 (ms / 3600000 % 24)
    <> ":"
    <> padded 2 (ms / 60000 % 60)
    <> ":"
    <> padded 2 (ms / 1000 % 60)
    <> "."
    <> padded 3 (ms % 1000)
    <> "Z"

epoch : to_iso_string 0 ≡ "1970-01-01T00:00:00.000Z"
unfolding to_iso_string
epoch = refl

leap_day : to_iso_string 1709210096789 ≡ "2024-02-29T12:34:56.789Z"
unfolding to_iso_string
leap_day = refl

end_of_year : to_iso_string 4102444799999 ≡ "2099-12-31T23:59:59.999Z"
unfolding to_iso_string
end_of_year = refl
