-- ===== src/HttpClient/Slots.antt =====
-- The semaphores count exactly the calls that hold a slot, so the limits on concurrency hold and no
-- slot is lost.
use mcp_swagger.Prelude.{ℕ, ◌+◌, ◌-◌, ◌≤◌, ◌≡◌, refl, Bool, true, false, ◌&&◌, arith, count, bit}
use mcp_swagger.Text.{Text, text_eq}
use mcp_swagger.Text.Laws.{text_eq_iff}
use mcp_swagger.Dict.{get-put}
use mcp_swagger.HttpClient.Limiter.{
  Time, Waited, granted, rate_limited, again, wait_round, normalize_limiter_key, keyed_wait_round,
}
use mcp_swagger.HttpClient.Flow.{
  Client, Phase, wants_slot, wants_key_slot, wants_turn, wants_key_turn, sending, done, Outcome,
  limited, answered, Call, key_slots, set_key_slots, release_slot, release_key_slot, release_both,
  take_slot, take_key_slot, after_wait, take_turn, take_key_turn, advance_phase, System,
}

abbrev pub holds_slot : Phase → Bool
holds_slot wants_key_slot = true
holds_slot wants_turn = true
holds_slot wants_key_turn = true
holds_slot sending = true
holds_slot _ = false

abbrev pub holds_key_slot : Phase → Bool
holds_key_slot wants_turn = true
holds_key_slot wants_key_turn = true
holds_key_slot sending = true
holds_key_slot _ = false

abbrev pub has_slot : Call → Bool
has_slot call = holds_slot call.phase

abbrev pub has_slot_of : Text → Call → Bool
has_slot_of key call = holds_key_slot call.phase && text_eq (normalize_limiter_key call.key) key

-- `m` and `k` are the limits of the options.
pub record IsBalanced (m k : ℕ) (s : System) : Type 0 where
  pub limit : s.client.max_concurrent ≡ m
  pub key_limit : s.client.max_per_key ≡ k
  pub slots : s.client.semaphore ≡ count has_slot s.calls
  pub within : s.client.semaphore ≤ s.client.max_concurrent
  pub per_key : (key : Text) → key_slots key s.client ≡ count (has_slot_of key) s.calls
  pub per_key_within : (key : Text) → key_slots key s.client ≤ s.client.max_per_key

-- A step of one call keeps the counters in step with what the call holds.
pub record Transfers (c : Client) (call : Call) (c' : Client) (call' : Call) : Type 0 where
  pub limit : c'.max_concurrent ≡ c.max_concurrent
  pub key_limit : c'.max_per_key ≡ c.max_per_key
  pub slots : c'.semaphore + bit (has_slot call) ≡ c.semaphore + bit (has_slot call')
  pub within : c'.semaphore ≤ c'.max_concurrent
  pub per_key :
      (key : Text)
      → key_slots key c' + bit (has_slot_of key call)
        ≡ key_slots key c + bit (has_slot_of key call')
  pub per_key_within : (key : Text) → key_slots key c' ≤ c'.max_per_key

-- What the invariant says of a client and one of its calls.
pub record Covers (c : Client) (call : Call) : Type 0 where
  pub slots : bit (has_slot call) ≤ c.semaphore
  pub within : c.semaphore ≤ c.max_concurrent
  pub per_key : (key : Text) → bit (has_slot_of key call) ≤ key_slots key c
  pub per_key_within : (key : Text) → key_slots key c ≤ c.max_per_key

release_both-Transfers :
    (c : Client) (call : Call) (outcome : Outcome)
    → Covers c call
    → has_slot call ≡ true
    → holds_key_slot call.phase ≡ true
    → Transfers c call (release_both call.key c) (record call { phase = done outcome })
unfolding release_both release_slot release_key_slot key_slots set_key_slots
release_both-Transfers c call outcome v h k =
    let key = normalize_limiter_key call.key in
    let put_law = λ (j : Text). get-put key j (key_slots key c - 1) c.per_key_sem in
    record {
      limit = ground arith;
      key_limit = ground arith;
      slots = ground (arith, v.slots);
      within = ground (arith, v.within);
      per_key = λ j. ground (arith, put_law j, v.per_key j, text_eq_iff key j);
      per_key_within = λ j.
          ground (arith, put_law j, v.per_key_within j, v.per_key_within key, text_eq_iff key j);
    }

stay-Transfers : (c : Client) (call : Call) → Covers c call → Transfers c call c call
stay-Transfers c call v = record {
  limit = refl;
  key_limit = refl;
  slots = refl;
  within = v.within;
  per_key = λ j. refl;
  per_key_within = v.per_key_within;
}

take_slot-Transfers :
    (cancelled : Bool) (call : Call) (c : Client)
    → call.phase ≡ wants_slot
    → Covers c call
    → let (c', call') = take_slot cancelled call c in Transfers c call c' call'
unfolding take_slot key_slots
take_slot-Transfers cancelled call c e v = record {
  limit = ground arith;
  key_limit = ground arith;
  slots = ground arith;
  within = ground (arith, v.within);
  per_key = λ j. ground arith;
  per_key_within = λ j. ground (arith, v.per_key_within j);
}

take_key_slot-Transfers :
    (cancelled : Bool) (call : Call) (c : Client)
    → call.phase ≡ wants_key_slot
    → Covers c call
    → let (c', call') = take_key_slot cancelled call c in Transfers c call c' call'
unfolding take_key_slot release_slot key_slots set_key_slots
take_key_slot-Transfers cancelled call c e v =
    let key = normalize_limiter_key call.key in
    let put_law = λ (j : Text). get-put key j (key_slots key c + 1) c.per_key_sem in
    record {
      limit = ground arith;
      key_limit = ground arith;
      slots = ground (arith, v.slots);
      within = ground (arith, v.within);
      per_key = λ j. ground (arith, put_law j, text_eq_iff key j);
      per_key_within = λ j. ground (arith, put_law j, v.per_key_within j, text_eq_iff key j);
    }

after_wait-Transfers :
    (next : Phase) (waited : Waited) (call : Call) (c : Client)
    → holds_slot call.phase ≡ true
    → holds_key_slot call.phase ≡ true
    → holds_slot next ≡ true
    → holds_key_slot next ≡ true
    → Covers c call
    → let (c', call') = after_wait next waited call c in Transfers c call c' call'
unfolding after_wait
after_wait-Transfers next granted call c h k h' k' v = record {
  limit = ground arith;
  key_limit = ground arith;
  slots = ground arith;
  within = v.within;
  per_key = λ j. ground arith;
  per_key_within = v.per_key_within;
}
after_wait-Transfers next rate_limited call c h k h' k' v =
    release_both-Transfers c call limited v h k
after_wait-Transfers next again call c h k h' k' v = stay-Transfers c call v

-- The two clients differ in their limiters at most.
record HasSlotsOf (c₁ c : Client) : Type 0 where
  semaphore : c₁.semaphore ≡ c.semaphore
  limit : c₁.max_concurrent ≡ c.max_concurrent
  key_limit : c₁.max_per_key ≡ c.max_per_key
  keys : c₁.per_key_sem ≡ c.per_key_sem

Covers-HasSlotsOf : (c₁ c : Client) (call : Call) → HasSlotsOf c₁ c → Covers c call → Covers c₁ call
unfolding key_slots
Covers-HasSlotsOf c₁ c call same v = record {
  slots = ground (arith, v.slots);
  within = ground (arith, v.within);
  per_key = λ j. rw same.keys (v.per_key j);
  per_key_within = λ j. rw (same.keys, same.key_limit) (v.per_key_within j);
}

Transfers-HasSlotsOf :
    (c₁ c : Client) (call : Call) (out : Client × Call)
    → HasSlotsOf c₁ c
    → Transfers c₁ call out.0 out.1
    → Transfers c call out.0 out.1
unfolding key_slots
Transfers-HasSlotsOf c₁ c call out same t = record {
  limit = ground (arith, t.limit);
  key_limit = ground (arith, t.key_limit);
  slots = ground (arith, t.slots);
  within = t.within;
  per_key = λ j. rw same.keys at (t.per_key j);
  per_key_within = t.per_key_within;
}

waits-Transfers :
    (next : Phase) (waited : Waited) (call : Call) (c₁ c : Client)
    → HasSlotsOf c₁ c
    → holds_slot call.phase ≡ true
    → holds_key_slot call.phase ≡ true
    → holds_slot next ≡ true
    → holds_key_slot next ≡ true
    → Covers c call
    → let out = after_wait next waited call c₁ in Transfers c call out.0 out.1
waits-Transfers next waited call c₁ c same h k h' k' v =
    Transfers-HasSlotsOf c₁ c call (after_wait next waited call c₁) same
      (after_wait-Transfers next waited call c₁ h k h' k' (Covers-HasSlotsOf c₁ c call same v))

abbrev pub TransfersTo : Client → Call → Client × Call → Type 0
TransfersTo c call (c', call') = Transfers c call c' call'

-- Whatever a call does next, the counters follow what it holds.
pub advance_phase-Transfers :
    (phase : Phase) (now : Time) (cancelled : Bool) (call : Call) (c : Client)
    → call.phase ≡ phase
    → Covers c call
    → TransfersTo c call (advance_phase phase now cancelled call c)
advance_phase-Transfers wants_slot now cancelled call c e v =
    take_slot-Transfers cancelled call c e v
advance_phase-Transfers wants_key_slot now cancelled call c e v =
    take_key_slot-Transfers cancelled call c e v
advance_phase-Transfers wants_turn now cancelled call c e v =
    let (limiter, waited) = wait_round now cancelled c.limiter in
    unfold take_turn in
    waits-Transfers wants_key_turn waited call (record c { limiter = limiter }) c
      (record { semaphore = refl; limit = refl; key_limit = refl; keys = refl }) (ground arith)
      (ground arith) refl refl v
advance_phase-Transfers wants_key_turn now cancelled call c e v =
    let (limiter, waited) = keyed_wait_round now cancelled call.key c.per_key_limiter in
    unfold take_key_turn in
    waits-Transfers sending waited call (record c { per_key_limiter = limiter }) c
      (record { semaphore = refl; limit = refl; key_limit = refl; keys = refl }) (ground arith)
      (ground arith) refl refl v
advance_phase-Transfers sending now cancelled call c e v =
    release_both-Transfers c call answered v (ground arith) (ground arith)
advance_phase-Transfers (done outcome) now cancelled call c e v = stay-Transfers c call v
