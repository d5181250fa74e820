-- ===== src/HttpClient/Limiter.antt =====
-- minuteLimiter and keyedMinuteLimiter of client.go. A time is in nanoseconds from Go's zero time.
-- `attempt` is the part of a round of Wait that runs under the mutex.
use mcp_swagger.Prelude.{
  ℕ, ◌+◌, ◌-◌, Bool, ◌||◌, Option, none, some, [], ltb, leb, ◌==◌, ℤ, positive_or, if◌then◌else◌,
}
use mcp_swagger.Text.{Text, codes, is_empty, trim_space}
use mcp_swagger.Dict.{Dict, get, put}

abbrev pub Time : Type 0
Time = ℕ

abbrev pub minute : ℕ
minute = 60_000_000_000

pub record MinuteLimiter : Type 0 where
  pub max : ℕ
  pub window_start : Time
  pub count : ℕ

unfoldable pub new_minute_limiter : ℤ → MinuteLimiter
new_minute_limiter limit = record { max = positive_or limit 60; window_start = 0; count = 0 }

-- l.windowStart.IsZero() || now.Sub(l.windowStart) >= time.Minute
unfoldable pub is_over : Time → MinuteLimiter → Bool
is_over now l = (l.window_start == 0) || leb minute (now - l.window_start)

unfoldable pub refresh : Time → MinuteLimiter → MinuteLimiter
refresh now l = if is_over now l then record l { window_start = now; count = 0 } else l

-- The new state, and the time to wait if no slot is left.
unfoldable pub attempt : Time → MinuteLimiter → MinuteLimiter × Option ℕ
attempt now l =
    let l' = refresh now l in
    if ltb l'.count l'.max
    then (record l' { count = l'.count + 1 }, none)
    else (l', some (l'.window_start + minute - now))

pub data Waited : Type 0 where
  granted rate_limited again : Waited

-- A round of Wait: a slot, or the select between the timer and the end of the context. A wait that
-- is not positive goes round at once.
unfoldable pub wait_round : Time → Bool → MinuteLimiter → MinuteLimiter × Waited
wait_round now cancelled l =
    let (l', left) = attempt now l in
    elim left [
      | none ↦ (l', granted)
      | some wait_for ↦
          if leb wait_for 0
          then (l', again)
          else if cancelled
          then (l', rate_limited)
          else (l', again)
    ]

abbrev pub anonymous_limiter_key : Text
anonymous_limiter_key = codes "anonymous"

-- normalizeLimiterKey, and the same steps in WithLimiterKey and LimiterKeyFromContext
unfoldable pub normalize_limiter_key : Text → Text
normalize_limiter_key key =
    let key = trim_space key in if is_empty key then anonymous_limiter_key else key

pub record KeyedMinuteLimiter : Type 0 where
  pub max : ℕ
  pub limiters : Dict MinuteLimiter

unfoldable pub new_keyed_minute_limiter : ℤ → KeyedMinuteLimiter
new_keyed_minute_limiter limit = record { max = positive_or limit 60; limiters = [] }

-- get: the limiter of a key, made at its first use.
unfoldable pub limiter_of : Text → KeyedMinuteLimiter → MinuteLimiter
limiter_of key l = elim (get key l.limiters) [
  | none ↦ record { max = l.max; window_start = 0; count = 0 }
  | some limiter ↦ limiter
]

-- A round of Wait at the limiter of a key.
unfoldable pub keyed_wait_round :
    Time → Bool → Text → KeyedMinuteLimiter → KeyedMinuteLimiter × Waited
keyed_wait_round now cancelled key l =
    let key = normalize_limiter_key key in
    let (limiter, waited) = wait_round now cancelled (limiter_of key l) in
    (record l { limiters = put key limiter l.limiters }, waited)
