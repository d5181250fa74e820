-- ===== src/HttpClient/Flow.antt =====
-- Client of client.go with the calls of Do that are under way. A select that could go either way is
-- decided by the environment, which also gives the clock; a step is what one goroutine does between
-- two places where it may wait. The wrapped http.Client and the request's context are not under the
-- repository: what they decide is in the events.
use mcp_swagger.Prelude.{
  ℕ, ◌+◌, ◌-◌, Bool, true, false, ◌&&◌, Option, none, some, List, [], ◌∷◌, ◌++◌, ltb, ℤ, pos,
  negsuc, positive_or, if◌then◌else◌, get_elem?, set,
}
use mcp_swagger.Text.{Text}
use mcp_swagger.Dict.{Dict, get, put}
use mcp_swagger.HttpClient.Limiter.{
  Time, MinuteLimiter, new_minute_limiter, Waited, granted, rate_limited, again, wait_round,
  normalize_limiter_key, KeyedMinuteLimiter, new_keyed_minute_limiter, keyed_wait_round,
}

pub record Options : Type 0 where
  pub max_concurrent : ℤ
  pub max_calls_per_minute : ℤ
  pub max_concurrent_per_key : ℤ
  pub max_calls_per_minute_per_key : ℤ
  pub max_request_bytes : ℤ
  pub validate_url : Option (Text → Bool)

-- A semaphore is the number of elements in its channel, beside the capacity.
pub record Client : Type 0 where
  pub max_concurrent : ℕ
  pub semaphore : ℕ
  pub limiter : MinuteLimiter
  pub max_per_key : ℕ
  pub per_key_sem : Dict ℕ
  pub per_key_limiter : KeyedMinuteLimiter
  pub max_request_bytes : ℕ
  pub validate_url : Option (Text → Bool)

unfoldable pub new_client : Options → Client
new_client opts =
    let max_concurrent = positive_or opts.max_concurrent 10 in
    let max_calls = positive_or opts.max_calls_per_minute 60 in
    record {
      max_concurrent = max_concurrent;
      semaphore = 0;
      limiter = new_minute_limiter (pos max_calls);
      max_per_key = positive_or opts.max_concurrent_per_key max_concurrent;
      per_key_sem = [];
      per_key_limiter =
          new_keyed_minute_limiter (pos (positive_or opts.max_calls_per_minute_per_key max_calls));
      max_request_bytes = positive_or opts.max_request_bytes 1_048_576;
      validate_url = opts.validate_url;
    }

pub data Outcome : Type 0 where
  request_too_large url_blocked context_done limited answered : Outcome

-- Where a call of Do stands.
pub data Phase : Type 0 where
  wants_slot wants_key_slot wants_turn wants_key_turn sending : Phase
  done : Outcome → Phase

pub record Call : Type 0 where
  pub key : Text
  pub phase : Phase

abbrev pub exceeds : ℤ → ℕ → Bool
exceeds (pos n) limit = ltb limit n
exceeds (negsuc n) limit = false

abbrev pub is_valid : Option (Text → Bool) → Text → Bool
is_valid none url = true
is_valid (some validate) url = validate url

-- Do up to the first wait; the key is that of LimiterKeyFromContext.
unfoldable pub arrive : Client → Text → ℤ → Text → Call
arrive c url content_length key = record {
  key = normalize_limiter_key key;
  phase =
      if ltb 0 c.max_request_bytes && exceeds content_length c.max_request_bytes
      then done request_too_large
      else if is_valid c.validate_url url
      then wants_slot
      else done url_blocked;
}

abbrev pub or_zero : Option ℕ → ℕ
or_zero none = 0
or_zero (some n) = n

-- len(s.get(key))
unfoldable pub key_slots : Text → Client → ℕ
key_slots key c = or_zero (get key c.per_key_sem)

unfoldable pub set_key_slots : Text → ℕ → Client → Client
set_key_slots key n c = record c { per_key_sem = put key n c.per_key_sem }

-- Client.release and keyedSemaphore.Release: a receive that does not wait.
unfoldable pub release_slot : Client → Client
release_slot c = record c { semaphore = c.semaphore - 1 }

unfoldable pub release_key_slot : Text → Client → Client
release_key_slot key c =
    let key = normalize_limiter_key key in set_key_slots key (key_slots key c - 1) c

-- The deferred release of Do.
unfoldable pub release_both : Text → Client → Client
release_both key c = release_slot (release_key_slot key c)

-- The first select of acquire.
unfoldable pub take_slot : Bool → Call → Client → Client × Call
take_slot cancelled call c =
    if cancelled
    then (c, record call { phase = done context_done })
    else if ltb c.semaphore c.max_concurrent
    then (record c { semaphore = c.semaphore + 1 }, record call { phase = wants_key_slot })
    else (c, call)

-- keyedSemaphore.Acquire, and the release of the global slot if it fails.
unfoldable pub take_key_slot : Bool → Call → Client → Client × Call
take_key_slot cancelled call c =
    let key = normalize_limiter_key call.key in
    if cancelled
    then (release_slot c, record call { phase = done context_done })
    else if ltb (key_slots key c) c.max_per_key
    then (set_key_slots key (key_slots key c + 1) c, record call { phase = wants_turn })
    else (c, call)

-- What a round of a limiter means for the call: `next` is where it goes with a slot.
unfoldable pub after_wait : Phase → Waited → Call → Client → Client × Call
after_wait next granted call c = (c, record call { phase = next })
after_wait next rate_limited call c =
    (release_both call.key c, record call { phase = done limited })
after_wait next again call c = (c, call)

unfoldable pub take_turn : Time → Bool → Call → Client → Client × Call
take_turn now cancelled call c =
    let (limiter, waited) = wait_round now cancelled c.limiter in
    after_wait wants_key_turn waited call (record c { limiter = limiter })

unfoldable pub take_key_turn : Time → Bool → Call → Client → Client × Call
take_key_turn now cancelled call c =
    let (limiter, waited) = keyed_wait_round now cancelled call.key c.per_key_limiter in
    after_wait sending waited call (record c { per_key_limiter = limiter })

-- The next step of a call. The answer of http.Client, an error or a response, ends it.
abbrev pub advance_phase : Phase → Time → Bool → Call → Client → Client × Call
advance_phase wants_slot now cancelled call c = take_slot cancelled call c
advance_phase wants_key_slot now cancelled call c = take_key_slot cancelled call c
advance_phase wants_turn now cancelled call c = take_turn now cancelled call c
advance_phase wants_key_turn now cancelled call c = take_key_turn now cancelled call c
advance_phase sending now cancelled call c =
    (release_both call.key c, record call { phase = done answered })
advance_phase (done outcome) now cancelled call c = (c, call)

pub record System : Type 0 where
  pub client : Client
  pub calls : List Call

pub data Event : Type 0 where
  arrives : Text → ℤ → Text → Event
  advances : ℕ → Time → Bool → Event

abbrev pub advance_call : ℕ → Time → Bool → Option Call → System → System
advance_call i now cancelled none s = s
advance_call i now cancelled (some call) s =
    let (client, call') = advance_phase call.phase now cancelled call s.client in
    record { client = client; calls = set s.calls i call' }

unfoldable pub step : Event → System → System
step (arrives url content_length key) s = record s {
  calls = s.calls ++ arrive s.client url content_length key ∷ [];
}
step (advances i now cancelled) s = advance_call i now cancelled (get_elem? s.calls i) s

unfoldable pub run : List Event → System → System
run [] s = s
run (e ∷ es) s = run es (step e s)
