-- ===== src/Persistence/Redis/Idempotency.antt =====
-- How long a key is known, and how long a call.
use mathlib.Core.Option.{none-ne-some}
use mathlib.Core.Bool.{true≢false}
use textbee_gateway.Prelude.{
  ℕ, ◌+◌, ◌≤◌, ◌<◌, ◌≡◌, refl, sym, ◌∙◌, arith, true, false, String, Option, none, some, List, [],
  ◌∷◌, ltb, ◌===◌, ===_iff, ===_refl, if◌then◌else◌, ap, Bool-cases, inl, inr,
}
use textbee_gateway.Persistence.Redis.{Redis, RedisStore, check_and_mark_seen, idempotency_key}

-- A later check: its time, its length of life, namespace and key.
pub record Check : Type 0 where
  pub time : ℕ
  pub ttl : ℕ
  pub namespace : String
  pub key : String

abbrev pub InOrder : ℕ → List Check → ℕ → Type 0
InOrder start [] end = start ≤ end
InOrder start (c ∷ cs) end = (start ≤ c.time) × InOrder c.time cs end

InOrder-le : (start : ℕ) (cs : List Check) (end : ℕ) → InOrder start cs end → start ≤ end
InOrder-le start [] end h = h
InOrder-le start (c ∷ cs) end h = let after = InOrder-le c.time cs end h.1 in omega arith

module _ {R : Type 0} (server : Redis R) where
  -- A key that was not there is there with "1" for its length of life; one that was is untouched.
  abbrev IsKnown : String → ℕ → ℕ → R → Type 0
  IsKnown key start end r = (t : ℕ) → start ≤ t → t < end → server.get t key r ≡ some "1"

  abbrev pub check_all : List Check → RedisStore R → RedisStore R
  check_all [] s = s
  check_all (c ∷ cs) s =
      check_all cs (check_and_mark_seen server c.time c.ttl c.namespace c.key s).1

  check_and_mark_seen-prefix :
      (now ttl : ℕ) (n k : String) (s : RedisStore R)
      → (check_and_mark_seen server now ttl n k s).1.prefix ≡ s.prefix
  unfolding check_and_mark_seen
  check_and_mark_seen-prefix now ttl n k s = refl

  set_nx_ex-IsKnown :
      (now ttl start end : ℕ) (j k : String) (r : R) (held : Option String)
      → server.get now k r ≡ held
      → start ≤ now
      → now < end
      → IsKnown j start end r
      → IsKnown j now end (server.set_nx_ex now k "1" ttl r).1
  set_nx_ex-IsKnown now ttl start end j k r (some v) at a b known t c d =
      rw (server.set_nx_ex-present now k "1" v ttl r at) (known t (omega arith) d)
  set_nx_ex-IsKnown now ttl start end j k r none at a b known t c d =
      let apart : (k === j) ≡ false = elim (Bool-cases (k === j)) [
        | inl same ↦
            let e = (===_iff k j).0 same in
            let here = known now a b in
            absurd (none-ne-some _ (sym at ∙ ap (λ x. server.get now x r) e ∙ here))
        | inr other ↦ other
      ] in
      rw
        (server.set_nx_ex-absent now k "1" ttl r at, server.get-set_ex now t j k "1" ttl r c, apart)
        (known t (omega arith) d)

  check_all-IsKnown :
      (cs : List Check) (start end later : ℕ) (key : String) (s : RedisStore R)
      → InOrder start cs later
      → later < end
      → IsKnown key start end s.redis
      → IsKnown key later end (check_all cs s).redis
  check_all-IsKnown [] start end later key s order h known = λ t c d. known t (omega arith) d
  check_all-IsKnown (c ∷ cs) start end later key s order h known =
      let before = InOrder-le c.time cs later order.1 in
      check_all-IsKnown cs c.time end later key
        (check_and_mark_seen server c.time c.ttl c.namespace c.key s).1 order.1 h
        (unfold check_and_mark_seen in
          set_nx_ex-IsKnown c.time c.ttl start end key (idempotency_key s.prefix c.namespace c.key)
            s.redis (server.get c.time (idempotency_key s.prefix c.namespace c.key) s.redis) refl
            order.0 (omega arith) known)

  check_all-prefix : (cs : List Check) (s : RedisStore R) → (check_all cs s).prefix ≡ s.prefix
  unfolding check_and_mark_seen
  check_all-prefix [] s = refl
  check_all-prefix (c ∷ cs) s =
      check_all-prefix cs (check_and_mark_seen server c.time c.ttl c.namespace c.key s).1

  -- What is found at a key decides the answer.
  check_and_mark_seen-found :
      (now ttl : ℕ) (n k : String) (s : RedisStore R) (v : String)
      → server.get now (idempotency_key s.prefix n k) s.redis ≡ some v
      → (check_and_mark_seen server now ttl n k s).0 ≡ false
  unfolding check_and_mark_seen
  check_and_mark_seen-found now ttl n k s v at =
      rw (server.set_nx_ex-present now _ "1" v ttl s.redis at) refl

  check_and_mark_seen-missing :
      (now ttl : ℕ) (n k : String) (s : RedisStore R)
      → server.get now (idempotency_key s.prefix n k) s.redis ≡ none
      → (check_and_mark_seen server now ttl n k s).0 ≡ true
  unfolding check_and_mark_seen
  check_and_mark_seen-missing now ttl n k s at =
      rw (server.set_nx_ex-absent now _ "1" ttl s.redis at) refl

  -- The key that a successful check sets.
  set_by_check :
      (now ttl later : ℕ) (n k : String) (s : RedisStore R) (held : Option String)
      → server.get now (idempotency_key s.prefix n k) s.redis ≡ held
      → (check_and_mark_seen server now ttl n k s).0 ≡ true
      → now ≤ later
      → server.get later
          (idempotency_key s.prefix n k)
          (check_and_mark_seen server now ttl n k s).1.redis
        ≡ (if ltb later (now + ttl) then some "1" else none)
  set_by_check now ttl later n k s (some v) at fresh h =
      absurd (true≢false (sym fresh ∙ check_and_mark_seen-found now ttl n k s v at))
  set_by_check now ttl later n k s none at fresh h =
      unfold check_and_mark_seen in
      rw
        (
          server.set_nx_ex-absent now (idempotency_key s.prefix n k) "1" ttl s.redis at,
          server.get-set_ex now later (idempotency_key s.prefix n k) (idempotency_key s.prefix n k)
              "1" ttl s.redis h,
          ===_refl (idempotency_key s.prefix n k),
        )
        refl

  -- When a check found its key new, no check of that key within the length of life finds it new
  -- again, whatever was checked in between, by this process or another; and from the end of that
  -- time on, the next check does.
  pub check_and_mark_seen_until :
      (now ttl later ttl' : ℕ) (n k : String) (between : List Check) (s : RedisStore R)
      → (check_and_mark_seen server now ttl n k s).0 ≡ true
      → InOrder now between later
      → let s' = (check_and_mark_seen server now ttl n k s).1 in
        (later < now + ttl
          → (check_and_mark_seen server later ttl' n k (check_all between s')).0 ≡ false)
        × (now + ttl ≤ later → (check_and_mark_seen server later ttl' n k s').0 ≡ true)
  check_and_mark_seen_until now ttl later ttl' n k between s fresh order =
      let key = idempotency_key s.prefix n k in
      let s' = (check_and_mark_seen server now ttl n k s).1 in
      let set : (t : ℕ)
          → now ≤ t
          → server.get t key s'.redis ≡ (if ltb t (now + ttl) then some "1" else none) =
        λ t h. set_by_check now ttl t n k s _ refl fresh h in
      (
        λ h.
            let known : IsKnown key now (now + ttl) s'.redis = λ t c d. set t c ∙ ground arith in
            check_and_mark_seen-found later ttl' n k (check_all between s') "1" (
              rw (check_all-prefix between s', check_and_mark_seen-prefix now ttl n k s)
                (check_all-IsKnown between now (now + ttl) later key s' order h known later
                  (omega arith) h)),
        λ h.
            let gone : server.get later key s'.redis ≡ none =
              set later (omega arith) ∙ ground arith in
            check_and_mark_seen-missing later ttl' n k s'
              (rw (check_and_mark_seen-prefix now ttl n k s) gone),
      )
