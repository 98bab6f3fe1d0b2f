-- ===== src/Orders/Hours.antt =====
-- The opening hours of src/vertical/restaurants/order.service.ts: `isOpenAt` and the checks of
-- `checkout` on the time of an order. Instants are milliseconds since 1970, from then on.
pub mod Windows
use peer_core.Base.{
  ℕ, ◌+◌, ◌*◌, ◌/◌, ◌%◌, Bool, true, false, ◌&&◌, ◌||◌, not, Option, none, some, List, [], ◌∷◌,
  String, ltb, ◌==◌, any, if◌then◌else◌, Map, lookup,
}

-- A JavaScript string by its UTF-16 code units, where the order of strings matters.
abbrev pub Text : Type 0
Text = List ℕ

-- `a < b` on strings.
pub text_lt : Text → Text → Bool
text_lt a [] = false
text_lt [] (d ∷ b) = true
text_lt (c ∷ a) (d ∷ b) = if ltb c d then true else (c == d) && text_lt a b

-- `[open, close]` windows for each lowercase weekday.
abbrev pub Hours : Type 0
Hours = Map (List (Text × Text))

abbrev pub branch_tz_offset_min : ℕ
branch_tz_offset_min = 180

-- `getUTCDay()`, `getUTCHours()` and `getUTCMinutes()`; 1970 began on a Thursday.
abbrev utc_day : ℕ → ℕ
utc_day ms = (ms / 86400000 + 4) % 7

abbrev utc_hours : ℕ → ℕ
utc_hours ms = ms / 3600000 % 24

abbrev utc_minutes : ℕ → ℕ
utc_minutes ms = ms / 60000 % 60

-- `WEEKDAYS[day]`
abbrev weekday : ℕ → String
weekday d =
    if d == 0
    then "sun"
    else if d == 1
    then "mon"
    else if d == 2
    then "tue"
    else if d == 3
    then "wed"
    else if d == 4
    then "thu"
    else if d == 5
    then "fri"
    else "sat"

-- `String(n).padStart(2, '0')` for n < 100.
abbrev pad2 : ℕ → Text → Text
pad2 n rest = (48 + n / 10) ∷ (48 + n % 10) ∷ rest

abbrev pub hhmm : ℕ → ℕ → Text
hhmm h m = pad2 h (58 ∷ pad2 m [])

abbrev in_window : Text → Text × Text → Bool
in_window now (open_at, close_at) =
    if text_lt open_at close_at
    then not (text_lt now open_at) && text_lt now close_at
    else not (text_lt now open_at) || text_lt now close_at

abbrev open_in : Option (List (Text × Text)) → Text → Bool
open_in none now = false
open_in (some windows) now = any (in_window now) windows

-- An empty or missing list of windows means closed, as `any` on no window gives.
unfoldable pub is_open_at : Hours → ℕ → Bool
unfolding text_lt
is_open_at hours at =
    let local_ms = at + branch_tz_offset_min * 60000 in
    open_in (lookup (weekday (utc_day local_ms)) hours)
      (hhmm (utc_hours local_ms) (utc_minutes local_ms))
