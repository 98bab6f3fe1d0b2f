-- ===== src/Orders/Hours/Windows.antt =====
-- What `isOpenAt` in src/vertical/restaurants/order.service.ts means for windows of well-formed
-- clock times.
use peer_core.Orders.Hours.{
  open_in, utc_hours, utc_minutes, utc_day, weekday, Hours, hhmm, Text, is_open_at, in_window,
  text_lt, branch_tz_offset_min,
}
use peer_core.Base.{
  Option, [], refl, ◌==◌, true, some, ◌∷◌, ◌*◌, ◌%◌, arith, lookup, map, ◌≡◌, ◌||◌, any, ◌&&◌, ◌+◌,
  not, All, ◌/◌, ◌<◌, if◌then◌else◌, ℕ, List, Bool, ltb,
}

abbrev pub clock : ℕ → Text
clock m = hhmm (m / 60) (m % 60)

text_lt-pair :
    (a b : ℕ) (s t : Text)
    → text_lt (a ∷ s) (b ∷ t) ≡ (if ltb a b then true else (a == b) && text_lt s t)
unfolding text_lt
text_lt-pair a b s t = refl

-- On clock times the order of the texts is the order of the minutes.
text_lt-clock : (m n : ℕ) → m < 1440 → n < 1440 → text_lt (clock m) (clock n) ≡ ltb m n
unfolding text_lt
text_lt-clock m n hm hn = ground arith

-- The minute of the day on the branch's wall clock.
abbrev pub local_minute : ℕ → ℕ
local_minute at = (at / 60000 + branch_tz_offset_min) % 1440

-- A window that closes at or before it opens runs over midnight.
abbrev pub covers : ℕ → ℕ × ℕ → Bool
covers m (open_at, close_at) =
    if ltb open_at close_at
    then not (ltb m open_at) && ltb m close_at
    else not (ltb m open_at) || ltb m close_at

abbrev pub as_texts : List (ℕ × ℕ) → List (Text × Text)
as_texts = map λ (o, c). (clock o, clock c)

abbrev pub InDay : ℕ × ℕ → Type 0
InDay (o, c) = (o < 1440) × (c < 1440)

in_window-covers :
    (m o c : ℕ)
    → m < 1440
    → o < 1440
    → c < 1440
    → in_window (clock m) (clock o, clock c) ≡ covers m (o, c)
in_window-covers m o c hm ho hc =
    rw (text_lt-clock o c ho hc, text_lt-clock m o hm ho, text_lt-clock m c hm hc)

any-covers :
    (m : ℕ) (ws : List (ℕ × ℕ))
    → m < 1440
    → All InDay ws
    → any (in_window (clock m)) (as_texts ws) ≡ any (covers m) ws
any-covers m [] hm h = refl
any-covers m ((o, c) ∷ ws) hm (h, hs) =
    rw (in_window-covers m o c hm h.0 h.1, any-covers m ws hm hs)

local_hours : (at : ℕ) → utc_hours (at + branch_tz_offset_min * 60000) ≡ local_minute at / 60
local_hours at = omega arith

local_minutes : (at : ℕ) → utc_minutes (at + branch_tz_offset_min * 60000) ≡ local_minute at % 60
local_minutes at = omega arith

-- The instant on the branch's wall clock.
abbrev pub local_ms : ℕ → ℕ
local_ms at = at + branch_tz_offset_min * 60000

local_text :
    (at : ℕ) → hhmm (utc_hours (local_ms at)) (utc_minutes (local_ms at)) ≡ clock (local_minute at)
local_text at = λ i. hhmm (local_hours at i) (local_minutes at i)

open_in-as_texts :
    (o : Option (List (Text × Text))) (now : Text) (m : ℕ) (ws : List (ℕ × ℕ))
    → All InDay ws
    → m < 1440
    → o ≡ some (as_texts ws)
    → now ≡ clock m
    → open_in o now ≡ any (covers m) ws
open_in-as_texts o now m ws h hm e e' = rw (e, e') (any-covers m ws hm h)

-- If the windows of the local weekday are clock times, the branch is open exactly when one of
-- them covers the local minute.
pub is_open_at-covers :
    (hours : Hours) (at : ℕ) (ws : List (ℕ × ℕ))
    → All InDay ws
    → lookup (weekday (utc_day (local_ms at))) hours ≡ some (as_texts ws)
    → is_open_at hours at ≡ any (covers (local_minute at)) ws
unfolding is_open_at
is_open_at-covers hours at ws h e =
    open_in-as_texts (lookup (weekday (utc_day (local_ms at))) hours)
      (hhmm (utc_hours (local_ms at)) (utc_minutes (local_ms at))) (local_minute at) ws h
      (omega arith) e (local_text at)
