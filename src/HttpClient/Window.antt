-- ===== src/HttpClient/Window.antt =====
-- How many calls the limiters let through, and that a wait ends.
use mcp_swagger.Prelude.{
  ℕ, ◌+◌, ◌-◌, ◌≤◌, ◌<◌, ◌≡◌, ◌⊎◌, inl, inr, Bool, true, false, Option, none, some, List, [], ◌∷◌,
  arith, ltb, if◌then◌else◌, All,
}
use mcp_swagger.Text.{Text, text_eq}
use mcp_swagger.Text.Laws.{text_eq_iff}
use mcp_swagger.Dict.{get-put}
use mcp_swagger.HttpClient.Limiter.{
  Time, minute, MinuteLimiter, is_over, refresh, attempt, wait_round, normalize_limiter_key,
  KeyedMinuteLimiter, limiter_of, keyed_wait_round,
}

-- 1 if an attempt got a slot.
abbrev slot : Option ℕ → ℕ
slot none = 1
slot (some w) = 0

-- The slots that attempts at these times get, whichever goroutines make them.
unfoldable pub grants : List Time → MinuteLimiter → ℕ
grants [] l = 0
grants (now ∷ times) l = slot (attempt now l).1 + grants times (attempt now l).0

abbrev pub IsWithinLimit : MinuteLimiter → Type 0
IsWithinLimit l = l.count ≤ l.max

attempt-IsWithinLimit :
    (now : Time) (l : MinuteLimiter) → IsWithinLimit l → IsWithinLimit (attempt now l).0
unfolding attempt refresh is_over
attempt-IsWithinLimit now l h = ground arith

-- Taking a slot of a window that is not over.
take_slot : Time → MinuteLimiter → MinuteLimiter × Option ℕ
take_slot now l =
    if ltb l.count l.max
    then (record l { count = l.count + 1 }, none)
    else (l, some (l.window_start + minute - now))

attempt-cases :
    (now : Time) (l : MinuteLimiter)
    → ((is_over now l ≡ false) × (attempt now l ≡ take_slot now l))
      ⊎ ((is_over now l ≡ true)
          × (attempt now l ≡ take_slot now (record l { window_start = now; count = 0 })))
unfolding attempt refresh take_slot
attempt-cases now l = ground arith

not_over :
    (now : Time) (l : MinuteLimiter)
    → 0 < l.window_start
    → now < l.window_start + minute
    → is_over now l ≡ false
unfolding is_over
not_over now l started early = ground arith

take_slot-count :
    (now : Time) (l : MinuteLimiter)
    → IsWithinLimit l
    → let (l', left) = take_slot now l in
      (slot left + l.count ≡ l'.count)
      × (l'.max ≡ l.max)
      × (l'.window_start ≡ l.window_start)
      × (l'.count ≤ l'.max)
unfolding take_slot
take_slot-count now l h = ground arith

-- Inside the window there are no more slots than it has left.
grants-within :
    (times : List Time) (l : MinuteLimiter)
    → IsWithinLimit l
    → 0 < l.window_start
    → All (λ t. t < l.window_start + minute) times
    → grants times l + l.count ≤ l.max
unfolding grants
grants-within [] l h started early = omega arith
grants-within (now ∷ times) l h started (first, early) = elim (attempt-cases now l) [
  | inl (_, e) ↦
      let l' = (take_slot now l).0 in
      let facts = take_slot-count now l h in
      rw e (
        omega (
          arith,
          facts,
          grants-within times l' facts.3 (omega (arith, facts.2)) (rw facts.2 early),
        ))
  | inr (over, _) ↦ cc (not_over now l started first)
]

later_than :
    (now start : Time) (times : List Time)
    → start ≤ now
    → All (λ t. (start ≤ t) × (t < start + minute)) times
    → All (λ t. t < now + minute) times
later_than now start [] h within = tt
later_than now start (t ∷ times) h within =
    (omega (arith, within.0), later_than now start times h within.1)

-- Attempts whose clock readings lie within less than a minute of a positive time get at most the
-- slots that the open window has left and those of one more window.
pub grants-span :
    (times : List Time) (start : Time) (l : MinuteLimiter)
    → IsWithinLimit l
    → 0 < start
    → All (λ t. (start ≤ t) × (t < start + minute)) times
    → grants times l + l.count ≤ l.max + l.max
unfolding grants
grants-span [] start l h started within = omega arith
grants-span (now ∷ times) start l h started (first, within) = elim (attempt-cases now l) [
  | inl (_, e) ↦
      let l' = (take_slot now l).0 in
      let facts = take_slot-count now l h in
      rw e (omega (arith, facts, grants-span times start l' facts.3 started within))
  | inr (_, e) ↦
      let l₀ = record l { window_start = now; count = 0 } in
      let l' = (take_slot now l₀).0 in
      let facts = take_slot-count now l₀ (omega arith) in
      rw e (
        omega (
          arith,
          facts,
          h,
          grants-within times l' facts.3 (omega (arith, facts.2, first))
              (rw facts.2 (later_than now start times first.0 within)),
        ))
]

-- With a positive limit and a clock that is not before the window, if an attempt finds no slot,
-- the time that it is told to wait is positive and at most a minute, and an attempt after that
-- time, with none between, gets a slot.
pub wait_ends :
    (now later : Time) (l : MinuteLimiter) (left : ℕ)
    → 0 < l.max
    → l.window_start ≤ now
    → (attempt now l).1 ≡ some left
    → now + left ≤ later
    → (0 < left) × (left ≤ minute) × ((attempt later (attempt now l).0).1 ≡ none)
unfolding attempt refresh is_over
wait_ends now later l left room clock h after = (ground arith, ground arith, ground arith)

-- A round at one key changes the limiter of that key, as a round of its own limiter does, and the
-- limiter of no other key.
pub limiter_of-keyed_wait_round :
    (now : Time) (cancelled : Bool) (key j : Text) (l : KeyedMinuteLimiter)
    → limiter_of j (keyed_wait_round now cancelled key l).0 ≡ (
        if text_eq (normalize_limiter_key key) j
        then (wait_round now cancelled (limiter_of j l)).0
        else limiter_of j l)
unfolding keyed_wait_round limiter_of
limiter_of-keyed_wait_round now cancelled key j l = ground (
  arith,
  get-put (normalize_limiter_key key) j
      (wait_round now cancelled (limiter_of (normalize_limiter_key key) l)).0 l.limiters,
  text_eq_iff (normalize_limiter_key key) j,
)
