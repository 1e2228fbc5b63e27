-- ===== src/Tests/Redis.antt =====
-- Tests of src/persistence/redis-store.ts, with a server that is lists of keys.
use textbee_gateway.Prelude.{
  ℕ, ◌+◌, ◌<◌, ◌≤◌, ◌≡◌, refl, arith, Bool, true, false, String, Option, none, some, [], ◌∷◌, ltb,
  ◌===◌, if◌then◌else◌, text_ne, Bool-cases, inl, inr,
}
use textbee_gateway.JsMap.{JsMap, get, set}
use textbee_gateway.JsMap.Laws.{get-set}
use textbee_gateway.Core.Types.{CallSession, Endpoint, outbound, dialing}
use textbee_gateway.Persistence.Redis.{
  Redis, RedisStore, check_and_mark_seen, save_call, get_call, on_message, subscribe_events,
  seconds_per_day,
}
use textbee_gateway.Persistence.Redis.Idempotency.{Check, check_all, check_and_mark_seen_until}
use textbee_gateway.Persistence.Redis.Expiry.{get_call-save_call}

-- Values with the end of their life.
abbrev Server : Type 0
Server = JsMap (String × Option ℕ)

abbrev alive : ℕ → Option (String × Option ℕ) → Option String
alive now none = none
alive now (some (v, none)) = some v
alive now (some (v, some end)) = if ltb now end then some v else none

abbrev nx : ℕ → String → String → ℕ → Server → Option String → Bool × Server
nx now k v ttl r none = (true, set k (v, some (now + ttl)) r)
nx now k v ttl r (some w) = (false, r)

alive-set :
    (later end : ℕ) (j k v : String) (r : Server)
    → alive later (get j (set k (v, some end) r))
      ≡ (if k === j then (if ltb later end then some v else none) else alive later (get j r))
alive-set later end j k v r =
    rw (get-set k j (v, some end) r)
      (elim (Bool-cases (k === j)) [ inl same ↦ rw same refl | inr other ↦ rw other refl ])

nx-absent :
    (now ttl : ℕ) (k v : String) (r : Server)
    → alive now (get k r) ≡ none
    → nx now k v ttl r (alive now (get k r)) ≡ (true, set k (v, some (now + ttl)) r)
nx-absent now ttl k v r h = rw h refl

nx-present :
    (now ttl : ℕ) (k v w : String) (r : Server)
    → alive now (get k r) ≡ some w
    → nx now k v ttl r (alive now (get k r)) ≡ (false, r)
nx-present now ttl k v w r h = rw h refl

abbrev server : Redis Server
server = record {
  get = λ now k r. alive now (get k r);
  set = λ k v r. set k (v, none) r;
  set_ex = λ now k v ttl r. set k (v, some (now + ttl)) r;
  set_nx_ex = λ now k v ttl r. nx now k v ttl r (alive now (get k r));
  keys = λ now prefix r. [];
  hset = λ k fields r. r;
  hgetall = λ k r. [];
  rpush = λ k v r. r;
  lrange_last = λ k n r. [];
  lrange_all = λ k r. [];
  get-set_ex = λ now later j k v ttl r h. alive-set later (now + ttl) j k v r;
  set_nx_ex-absent = λ now k v ttl r h. nx-absent now ttl k v r h;
  set_nx_ex-present = λ now k v w ttl r h. nx-present now ttl k v w r h;
}

abbrev store : RedisStore Server
store = record { prefix = "gateway"; redis = []; subscriptions = [] }

abbrev other : Check
other = record { time = 150; ttl = 60; namespace = "webhook"; key = "sms_2" }

fresh : (check_and_mark_seen server 100 60 "webhook" "sms_1" store).0 ≡ true
unfolding check_and_mark_seen get
fresh = refl

check_and_mark_seen_until_example :
    let s' = (check_and_mark_seen server 100 60 "webhook" "sms_1" store).1 in
    (155 < 100 + 60
      → (check_and_mark_seen server 155 60 "webhook" "sms_1" (check_all server (other ∷ []) s')).0
        ≡ false)
    × (100 + 60 ≤ 155 → (check_and_mark_seen server 155 60 "webhook" "sms_1" s').0 ≡ true)
check_and_mark_seen_until_example =
    check_and_mark_seen_until server 100 60 155 60 "webhook" "sms_1" (other ∷ []) store fresh
      (omega arith, omega arith)

new_after_its_end :
    (check_and_mark_seen server 160 60 "webhook" "sms_1"
      (check_and_mark_seen server 100 60 "webhook" "sms_1" store).1).0
    ≡ true
unfolding check_and_mark_seen get set
new_after_its_end = refl

reached :
    on_message "gateway:events" (subscribe_events "events" 7 (subscribe_events "other" 8 store))
    ≡ 7 ∷ []
unfolding on_message subscribe_events
reached = refl

abbrev endpoint : String → Endpoint
endpoint address = record { address = address; label = none }

abbrev call : CallSession
call = record {
  id = "call_1";
  provider = "local";
  direction = outbound;
  from = endpoint "me";
  to = endpoint "you";
  state = dialing;
  started_at = "noon";
  ended_at = none;
  media_stream_url = none;
}

abbrev json : CallSession → String
json c = "{}"

abbrev parse : String → CallSession
parse s = call

abbrev empty_text : String
empty_text = ""

get_call-save_call_example :
    get_call server parse 200 "call_1" (save_call server json 100 call store) ≡ (
      if call.id === "call_1"
      then (if ltb 200 (100 + seconds_per_day) then some call else none)
      else get_call server parse 200 "call_1" store)
get_call-save_call_example =
    get_call-save_call server json parse call 100 200 "call_1" store refl
      (text_ne (json call) empty_text refl) (omega arith)
