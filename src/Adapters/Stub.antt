-- ===== src/Adapters/Stub.antt =====
-- src/adapters/stub-adapter.ts, as an `Adapter` of the core whose world is the stub itself. New
-- identifiers and the time are arguments; what the timers do when they fire is `ring_timer`,
-- `connect_timer` and `echo_timer`.
use Prim.Native.String
use textbee_gateway.Prelude.{
  String, Option, none, some, List, [], ◌∷◌, ok, err, or_default, Bool, if◌then◌else◌,
}
use textbee_gateway.JsMap.{JsMap, get, set}
use textbee_gateway.Core.Types.{
  ProviderId, Endpoint, CallSession, CallState, dialing, ringing, in_progress, on_hold, ended,
  outbound, inbound, voice, sms, mms, AdapterEvent, call_state_changed, call_ended,
  message_incoming, MessageRecord, sent, received,
}
use textbee_gateway.Core.Session.{Adapter, Reply, DialOptions, SendMessageOptions, provider_error}
use textbee_gateway.Core.Session.Operations.{message_kind}

pub record StubAdapter : Type 0 where
  pub id : ProviderId
  pub calls : JsMap CallSession

abbrev stub_local : Endpoint
stub_local = record { address = "stub:local"; label = none }

abbrev unknown : {A : Type 0} → StubAdapter → Reply StubAdapter A
unknown s = record { result = err (provider_error "Unknown call"); emitted = []; world = s }

-- A call that is there is put into a state, and that is reported.
move_to : CallState → Option CallSession → String → StubAdapter → Reply StubAdapter (Unit {0})
move_to state none call_id s = unknown s
move_to state (some c) call_id s = record {
  result = ok tt;
  emitted = call_state_changed call_id state ∷ [];
  world = record s { calls = set call_id (record c { state = state }) s.calls };
}

end_with : String → Option CallSession → String → StubAdapter → Reply StubAdapter (Unit {0})
end_with now none call_id s = unknown s
end_with now (some c) call_id s = record {
  result = ok tt;
  emitted = call_ended call_id (some "local_hangup") ∷ [];
  world = record s {
    calls = set call_id (record c { state = ended; ended_at = some now }) s.calls;
  };
}

send_to : Endpoint → Option CallSession → String → StubAdapter → Reply StubAdapter (Unit {0})
send_to to none call_id s = unknown s
send_to to (some c) call_id s = record {
  result = ok tt;
  emitted = [];
  world = record s { calls = set call_id (record c { to = to }) s.calls };
}

-- A timer of a call that is gone does nothing.
timer : CallState → Option CallSession → StubAdapter → StubAdapter × List AdapterEvent
timer state none s = (s, [])
timer state (some c) s = (
  record s { calls = set c.id (record c { state = state }) s.calls },
  call_state_changed c.id state ∷ [],
)

unfoldable pub ring_timer : String → StubAdapter → StubAdapter × List AdapterEvent
unfolding timer
ring_timer call_id s = timer ringing (get call_id s.calls) s

unfoldable pub connect_timer : String → StubAdapter → StubAdapter × List AdapterEvent
unfolding timer
connect_timer call_id s = timer in_progress (get call_id s.calls) s

-- The reply that comes back to a message.
unfoldable pub echo_timer : String → String → MessageRecord → String → AdapterEvent
echo_timer new_id now record' body = message_incoming (record {
  id = new_id;
  provider = record'.provider;
  kind = record'.kind;
  direction = inbound;
  from = record'.to;
  to = record'.from;
  body = some (String.◌++◌ "[stub echo] received: " body);
  media_urls = none;
  sent_at = now;
  status = received;
})

module _ (new_id now : String) where
  unfoldable pub dial : Endpoint → DialOptions → StubAdapter → Reply StubAdapter CallSession
  dial to opts s =
      let session : CallSession = record {
        id = new_id;
        provider = s.id;
        direction = outbound;
        from = or_default opts.from stub_local;
        to = to;
        state = dialing;
        started_at = now;
        ended_at = none;
        media_stream_url = opts.attach_media_stream_url;
      } in
      record {
        result = ok session;
        emitted = [];
        world = record s { calls = set new_id session s.calls };
      }

  unfoldable pub send_message :
      Endpoint → String → SendMessageOptions → StubAdapter → Reply StubAdapter MessageRecord
  send_message to body opts s = record {
    result = ok (record {
      id = new_id;
      provider = s.id;
      kind = message_kind opts.media_urls;
      direction = outbound;
      from = or_default opts.from stub_local;
      to = to;
      body = some body;
      media_urls = opts.media_urls;
      sent_at = now;
      status = sent;
    });
    emitted = [];
    world = s;
  }

  unfoldable pub answer : String → StubAdapter → Reply StubAdapter (Unit {0})
  unfolding move_to
  answer call_id s = move_to in_progress (get call_id s.calls) call_id s

  unfoldable pub hangup : String → StubAdapter → Reply StubAdapter (Unit {0})
  unfolding end_with
  hangup call_id s = end_with now (get call_id s.calls) call_id s

  unfoldable pub hold : String → Bool → StubAdapter → Reply StubAdapter (Unit {0})
  unfolding move_to
  hold call_id on s = move_to (if on then on_hold else in_progress) (get call_id s.calls) call_id s

  unfoldable pub transfer : String → Endpoint → StubAdapter → Reply StubAdapter (Unit {0})
  unfolding send_to
  transfer call_id to s = send_to to (get call_id s.calls) call_id s

  abbrev no_op : StubAdapter → Reply StubAdapter (Unit {0})
  no_op s = record { result = ok tt; emitted = []; world = s }

  -- What the core sees of a stub of that name.
  unfoldable pub stub_adapter : ProviderId → Adapter StubAdapter
  unfolding dial answer hangup hold transfer send_message
  stub_adapter name = record {
    id = name;
    capabilities = voice ∷ sms ∷ mms ∷ [];
    dial = some dial;
    answer = some answer;
    hangup = some hangup;
    hold = some hold;
    mute = some (λ call_id on s. no_op s);
    transfer = some transfer;
    send_dtmf = some (λ call_id digits s. no_op s);
    record_call = some (λ call_id on s. no_op s);
    send_message = some send_message;
  }

unfoldable pub shutdown : StubAdapter → StubAdapter
shutdown s = record s { calls = [] }
