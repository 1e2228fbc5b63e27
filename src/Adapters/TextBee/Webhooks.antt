-- ===== src/Adapters/TextBee/Webhooks.antt =====
-- Deliveries that TextBee repeats: what a delivery asks of the check, and when it is refused.
use textbee_gateway.Prelude.{
  ◌≡◌, ◌≢◌, sym, arith, Bool, false, String, none, ◌===◌, ===_iff, ===_refl, if◌then◌else◌, ◌⊎◌,
  inl, inr, refl, true, Option, some, List, [], ◌∷◌, Option-cases, Bool-cases, ◌||◌,
}
use mathlib.Core.Path.{subst}
use textbee_gateway.JsMap.{has}
use textbee_gateway.Core.Types.{MessageStatus}
use textbee_gateway.Persistence.Memory
use textbee_gateway.Persistence.Memory.{MemoryStore, seen_key}
use textbee_gateway.Persistence.Memory.Seen.{check_and_mark_seen-has, check_and_mark_seen-new}
use textbee_gateway.Core.Session.Routing.{or_else}
use textbee_gateway.Adapters.TextBee.{
  map_delivery_status, TextBeeAdapter, Payload, Ingestion, Reason, duplicate_status,
  duplicate_delivery, first_time, status_delivery, check_and_mark_seen, required, message_delivery,
  handle_inbound_webhook, ◌+++◌,
}

-- A delivery of a received message, as against one of a status.
abbrev pub IsMessage : Payload → Type 0
IsMessage p = (p.webhook_event ≡ none) ⊎ (p.webhook_event ≡ some "MESSAGE_RECEIVED")

abbrev key : TextBeeAdapter → String → String
key a sms_id = "textbee:" +++ a.id +++ ":" +++ sms_id

-- A delivery with the identifier and the time that it is given.
pub record Delivery : Type 0 where
  pub new_id : String
  pub now : String
  pub payload : Payload

module _ {S : Type 0} (attached : String → S → Bool × S) where
  abbrev on : String → String → Payload → TextBeeAdapter × S → Ingestion × (TextBeeAdapter × S)
  on new_id now p st = handle_inbound_webhook (some attached) new_id now p st

  message_only :
      (new_id now : String) (p : Payload) (st : TextBeeAdapter × S)
      → IsMessage p
      → on new_id now p st ≡ message_delivery (some attached) p.sms_id new_id now p st
  unfolding handle_inbound_webhook
  message_only new_id now p st (inl none') = rw none'
  message_only new_id now p st (inr received) = rw received

  -- A message delivery with an identifier: the attached check decides, and its answer is kept.
  delivery_checked :
      (id new_id now : String) (p : Payload) (a : TextBeeAdapter) (s : S)
      → IsMessage p
      → p.sms_id ≡ some id
      → id ≢ ""
      → on new_id now p (a, s) ≡ (
        if (attached (key a id) s).0
            then required new_id now p p.sender p.message a
            else record { reason = some duplicate_delivery; emitted = none },
        (a, (attached (key a id) s).1),
      )
  unfolding message_delivery check_and_mark_seen
  delivery_checked id new_id now p a s m e ne =
      let some_id : (id === "") ≡ false = ground (arith, ===_iff id "") in
      rw (message_only new_id now p (a, s) m, e, some_id) (ground arith)

  -- A delivery changes no more than the state of the check, by one question or none.
  Asks : TextBeeAdapter → S → TextBeeAdapter × S → Type 0
  Asks a s st = (st ≡ (a, s)) ⊎ ((k : String) × (st ≡ (a, (attached k s).1)))

  first_time-state :
      (reason : Reason) (then' : Ingestion) (o : Bool × (TextBeeAdapter × S))
      → (first_time (some attached) reason then' o).1 ≡ o.1
  unfolding first_time
  first_time-state reason then' (true, st) = refl
  first_time-state reason then' (false, st) = refl

  first_time-Asks :
      (reason : Reason) (then' : Ingestion) (k : String) (a : TextBeeAdapter) (s : S)
      → Asks a s
          (first_time (some attached) reason then' (check_and_mark_seen (some attached) k (a, s))).1
  unfolding Asks check_and_mark_seen
  first_time-Asks reason then' k a s = inr (key a k, first_time-state reason then' _)

  message_delivery-Asks :
      (sms_id : Option String) (new_id now : String) (p : Payload) (a : TextBeeAdapter) (s : S)
      → Asks a s (message_delivery (some attached) sms_id new_id now p (a, s)).1
  unfolding message_delivery
  message_delivery-Asks none new_id now p a s = unfold Asks in inl refl
  message_delivery-Asks (some id) new_id now p a s = elim (Bool-cases (id === "")) [
    | inl blank ↦ rw blank (unfold Asks in inl refl)
    | inr given ↦ rw given (first_time-Asks duplicate_delivery _ id a s)
  ]

  status_delivery-Asks :
      (p : Payload) (event : String) (status : Option MessageStatus) (id : Option String)
      (a : TextBeeAdapter) (s : S)
      → Asks a s (status_delivery (some attached) p event status id (a, s)).1
  unfolding status_delivery
  status_delivery-Asks p event none id a s = unfold Asks in inl refl
  status_delivery-Asks p event (some status) none a s = unfold Asks in inl refl
  status_delivery-Asks p event (some status) (some id) a s = elim (Bool-cases (id === "")) [
    | inl blank ↦ rw blank (unfold Asks in inl refl)
    | inr given ↦ rw given (first_time-Asks duplicate_status _ _ a s)
  ]

  -- A delivery is one of a message or one of a status.
  on_cases :
      (new_id now : String) (p : Payload) (st : TextBeeAdapter × S)
      → (on new_id now p st ≡ message_delivery (some attached) p.sms_id new_id now p st)
        ⊎ ((event : String) × (status : Option MessageStatus) × (id : Option String) × (on new_id
                now p st
              ≡ status_delivery (some attached) p event status id st))
  unfolding handle_inbound_webhook
  on_cases new_id now p st = elim (Option-cases p.webhook_event) [
    | inl absent ↦ inl (rw absent)
    | inr (event, there) ↦ elim (Bool-cases (event === "" || event === "MESSAGE_RECEIVED")) [
      | inl message ↦ inl (rw (there, message))
      | inr other ↦ inr (
        event,
        map_delivery_status event p.status,
        or_else p.sms_batch_id p.sms_id,
        rw (there, other),
      )
    ]
  ]

  on-Asks :
      (new_id now : String) (p : Payload) (a : TextBeeAdapter) (s : S)
      → Asks a s (on new_id now p (a, s)).1
  on-Asks new_id now p a s = elim (on_cases new_id now p (a, s)) [
    | inl message ↦
        subst (λ o. Asks a s o.1) (sym message) (message_delivery-Asks p.sms_id new_id now p a s)
    | inr (event, status, id, other) ↦
        subst (λ o. Asks a s o.1) (sym other) (status_delivery-Asks p event status id a s)
  ]

module _ {Config : Type 0} where
  -- The check that a core with the in-memory store attaches.
  abbrev pub attached_check : String → MemoryStore Config → Bool × MemoryStore Config
  attached_check k s = Memory.check_and_mark_seen "webhook" k s

  abbrev pub receive :
      Delivery
      → TextBeeAdapter × MemoryStore Config
      → Ingestion × (TextBeeAdapter × MemoryStore Config)
  receive d st = handle_inbound_webhook (some attached_check) d.new_id d.now d.payload st

  abbrev pub receive_all :
      List Delivery → TextBeeAdapter × MemoryStore Config → TextBeeAdapter × MemoryStore Config
  receive_all [] st = st
  receive_all (d ∷ ds) st = receive_all ds (receive d st).1

  -- The adapter `a`, over a store that has seen a key.
  HasSeen : TextBeeAdapter → String → TextBeeAdapter × MemoryStore Config → Type 0
  HasSeen a k st = (st.0 ≡ a) × (has (seen_key "webhook" k) st.1.seen_keys ≡ true)

  Asks-HasSeen :
      (a : TextBeeAdapter) (k : String) (s : MemoryStore Config)
      (st : TextBeeAdapter × MemoryStore Config)
      → has (seen_key "webhook" k) s.seen_keys ≡ true
      → Asks attached_check a s st
      → HasSeen a k st
  unfolding Asks HasSeen
  Asks-HasSeen a k s st seen (inl same) = rw same (refl, seen)
  Asks-HasSeen a k s st seen (inr (j, asked)) =
      rw asked (refl, ground (arith, check_and_mark_seen-has "webhook" j (seen_key "webhook" k) s))

  receive-HasSeen :
      (d : Delivery) (a : TextBeeAdapter) (k : String) (st : TextBeeAdapter × MemoryStore Config)
      → HasSeen a k st
      → HasSeen a k (receive d st).1
  receive-HasSeen d a k (b, s) h =
      unfold HasSeen in
      subst (λ x. HasSeen x k (receive d (b, s)).1) h.0
        (Asks-HasSeen b k s _ h.1 (on-Asks attached_check d.new_id d.now d.payload b s))

  receive_all-HasSeen :
      (ds : List Delivery) (a : TextBeeAdapter) (k : String)
      (st : TextBeeAdapter × MemoryStore Config)
      → HasSeen a k st
      → HasSeen a k (receive_all ds st)
  receive_all-HasSeen [] a k st h = h
  receive_all-HasSeen (d ∷ ds) a k st h =
      receive_all-HasSeen ds a k (receive d st).1 (receive-HasSeen d a k st h)

  first-HasSeen :
      (id : String) (p : Delivery) (a : TextBeeAdapter) (s : MemoryStore Config)
      → IsMessage p.payload
      → p.payload.sms_id ≡ some id
      → id ≢ ""
      → HasSeen a (key a id) (receive p (a, s)).1
  unfolding HasSeen
  first-HasSeen id p a s m e ne =
      rw (delivery_checked attached_check id p.new_id p.now p.payload a s m e ne) (
        refl,
        rw
            (
              check_and_mark_seen-has "webhook" (key a id) (seen_key "webhook" (key a id)) s,
              ===_refl,
            )
            refl,
      )

  again-refused :
      (id : String) (q : Delivery) (a : TextBeeAdapter) (st : TextBeeAdapter × MemoryStore Config)
      → IsMessage q.payload
      → q.payload.sms_id ≡ some id
      → id ≢ ""
      → HasSeen a (key a id) st
      → (receive q st).0 ≡ record { reason = some duplicate_delivery; emitted = none }
  unfolding HasSeen
  again-refused id q a (b, s) m e ne h =
      let known : has (seen_key "webhook" (key b id)) s.seen_keys ≡ true = rw h.0 h.1 in
      rw
        (
          delivery_checked attached_check id q.new_id q.now q.payload b s m e ne,
          check_and_mark_seen-new "webhook" (key b id) s,
          known,
        )
        refl

  -- With the in-memory store: of two message deliveries with one identifier, not empty, whatever
  -- else they hold and whatever deliveries come between them, the second is not ingested and emits
  -- nothing.
  pub same_sms_id_once :
      (id : String) (p q : Delivery) (between : List Delivery) (a : TextBeeAdapter)
      (s : MemoryStore Config)
      → IsMessage p.payload
      → IsMessage q.payload
      → p.payload.sms_id ≡ some id
      → q.payload.sms_id ≡ some id
      → id ≢ ""
      → (receive q (receive_all between (receive p (a, s)).1)).0
        ≡ record { reason = some duplicate_delivery; emitted = none }
  same_sms_id_once id p q between a s mp mq ep eq ne =
      again-refused id q a _ mq eq ne
        (receive_all-HasSeen between a (key a id) _ (first-HasSeen id p a s mp ep ne))
