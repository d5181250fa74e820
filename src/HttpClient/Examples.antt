-- ===== src/HttpClient/Examples.antt =====
-- Tests of the HTTP client's limits, and its theorems at small histories.
use mcp_swagger.Prelude.{
  ◌+◌, ◌-◌, ◌≤◌, ◌≡◌, refl, true, false, none, List, [], ◌∷◌, arith, pos, negsuc, count,
}
use mcp_swagger.Text.{codes, text_eq, is_space, trim_space}
use mcp_swagger.Dict.{get, put, remove}
use mcp_swagger.HttpClient.Limiter.{
  minute, MinuteLimiter, new_minute_limiter, attempt, refresh, is_over, wait_round,
  normalize_limiter_key, KeyedMinuteLimiter, limiter_of, new_keyed_minute_limiter, keyed_wait_round,
}
use mcp_swagger.HttpClient.Window.{grants, grants-span, wait_ends}
use mcp_swagger.HttpClient.Flow.{
  Options, new_client, arrive, key_slots, set_key_slots, release_slot, release_key_slot,
  release_both, take_slot, take_key_slot, after_wait, take_turn, take_key_turn, Outcome, Event,
  arrives, advances, step, run,
}
use mcp_swagger.HttpClient.Slots.{IsBalanced}
use mcp_swagger.HttpClient.Concurrency.{
  new_system, new_system-IsBalanced, call_limit, call_limit_per_key, step-IsBalanced, is_sending,
  sending_limits, no_slot_is_lost,
}

abbrev two_a_minute : MinuteLimiter
two_a_minute = record { max = 2; window_start = 5; count = 0 }

-- Four calls around the end of a window of two.
around_the_end :
    grants (59_000_000_000 ∷ 59_000_000_000 ∷ (minute + 5) ∷ (minute + 6) ∷ []) two_a_minute ≡ 4
unfolding grants attempt refresh is_over
around_the_end = refl

grants-span_example : grants (minute ∷ (minute + 5) ∷ (minute + 6) ∷ []) two_a_minute + 0 ≤ 2 + 2
grants-span_example =
    grants-span (minute ∷ (minute + 5) ∷ (minute + 6) ∷ []) minute two_a_minute (omega arith)
      (omega arith) (omega arith)

abbrev full_window : MinuteLimiter
full_window = record { max = 1; window_start = 5; count = 1 }

wait_ends_example : (attempt (minute + 5) (attempt 10 full_window).0).1 ≡ none
unfolding attempt refresh is_over
wait_ends_example =
    (wait_ends 10 (minute + 5) full_window (minute + 5 - 10) (omega arith) (omega arith) refl
      (omega arith)).2

abbrev per_key : KeyedMinuteLimiter
per_key = record { max = 3; limiters = [] }

abbrev one_at_a_time : Options
one_at_a_time = record {
  max_concurrent = pos 1;
  max_calls_per_minute = pos 2;
  max_concurrent_per_key = negsuc 0;
  max_calls_per_minute_per_key = pos 0;
  max_request_bytes = pos 0;
  validate_url = none;
}

-- Two calls; the second waits for the slot of the first, and its context ends.
abbrev story : List Event
story =
    arrives (codes "http://a") (pos 3) (codes "ann")
    ∷ arrives (codes "http://b") (pos 3) []
    ∷ advances 0 9 false
    ∷ advances 1 9 false
    ∷ advances 0 9 false
    ∷ advances 0 10 false
    ∷ advances 0 11 false
    ∷ advances 1 12 true
    ∷ advances 0 13 false
    ∷ []

sending_limits_example : count is_sending (run story (new_system one_at_a_time)).calls ≤ 1
sending_limits_example = (sending_limits one_at_a_time story (codes "ann")).0

step-IsBalanced_example :
    IsBalanced
      (call_limit one_at_a_time)
      (call_limit_per_key one_at_a_time)
      (step (arrives (codes "http://a") (pos 3) (codes "ann")) (new_system one_at_a_time))
step-IsBalanced_example =
    step-IsBalanced (call_limit one_at_a_time) (call_limit_per_key one_at_a_time)
      (arrives (codes "http://a") (pos 3) (codes "ann")) (new_system one_at_a_time)
      (new_system-IsBalanced one_at_a_time)

no_slot_is_lost_example : (run story (new_system one_at_a_time)).client.semaphore ≡ 0
unfolding run step arrive new_client new_minute_limiter new_keyed_minute_limiter take_slot
    take_key_slot take_turn take_key_turn after_wait wait_round keyed_wait_round limiter_of attempt
    refresh is_over normalize_limiter_key trim_space is_space key_slots set_key_slots release_both
    release_slot release_key_slot get put remove text_eq
no_slot_is_lost_example =
    (no_slot_is_lost one_at_a_time story (codes "ann")
      ((Outcome.answered, refl), ((Outcome.context_done, refl), tt))).0
