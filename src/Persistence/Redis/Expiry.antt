-- ===== src/Persistence/Redis/Expiry.antt =====
-- How long a call is kept.
use text.Mathlib.TextLemmas.{append_cancel_left}
use mathlib.Core.Bool.{true≢false}
use textbee_gateway.Prelude.{
  ◌∙◌, ℕ, ◌+◌, ◌≤◌, ◌≡◌, ◌≢◌, refl, sym, ap, arith, false, String, none, some, Bool-cases, inl, inr,
  ltb, ◌===◌, ◌+++◌, ===_iff, if◌then◌else◌,
}
use textbee_gateway.Core.Types.{CallSession}
use textbee_gateway.Persistence.Redis.{
  Redis, RedisStore, save_call, get_call, seconds_per_day, parsed,
}

call_key_same :
    (prefix i j : String)
    → ((prefix +++ ":call:" +++ i) === (prefix +++ ":call:" +++ j)) ≡ (i === j)
call_key_same prefix i j = elim (Bool-cases (i === j)) [
  | inl same ↦
      let keys = ap (λ x. prefix +++ ":call:" +++ x) ((===_iff i j).0 same) in
      (===_iff (prefix +++ ":call:" +++ i) (prefix +++ ":call:" +++ j)).1 keys ∙ sym same
  | inr other ↦ elim (Bool-cases ((prefix +++ ":call:" +++ i) === (prefix +++ ":call:" +++ j))) [
    | inl same ↦
        let keys = (===_iff (prefix +++ ":call:" +++ i) (prefix +++ ":call:" +++ j)).0 same in
        let tails = append_cancel_left prefix (":call:" +++ i) (":call:" +++ j) keys in
        let ids = append_cancel_left ":call:" i j tails in
        absurd (true≢false (sym ((===_iff i j).1 ids) ∙ other))
    | inr different ↦ rw (different, other) refl
  ]
]

-- A call reads back as it was saved for a day, and then is not there, and the save of one call
-- leaves every other one as it was.
pub get_call-save_call :
    {R : Type 0} (server : Redis R) (json : CallSession → String) (parse : String → CallSession)
    (c : CallSession) (now later : ℕ) (call_id : String) (s : RedisStore R)
    → parse (json c) ≡ c
    → json c ≢ ""
    → now ≤ later
    → get_call server parse later call_id (save_call server json now c s) ≡ (
        if c.id === call_id
        then (if ltb later (now + seconds_per_day) then some c else none)
        else get_call server parse later call_id s)
unfolding get_call save_call
get_call-save_call server json parse c now later call_id s back ne h =
    let full : (json c === "") ≡ false = ground (arith, ===_iff (json c) "") in
    rw
      (
        server.get-set_ex now later (s.prefix +++ ":call:" +++ call_id)
            (s.prefix +++ ":call:" +++ c.id) (json c) seconds_per_day s.redis h,
        call_key_same s.prefix c.id call_id,
      )
      (elim (Bool-cases (c.id === call_id)) [
        | inr other ↦ rw other refl
        | inl same ↦ elim (Bool-cases (ltb later (now + seconds_per_day))) [
          | inl kept ↦ rw (same, kept, parsed, full, back) refl
          | inr gone ↦ rw (same, gone, parsed) refl
        ]
      ])
