-- ===== src/Core/Session/Lifecycle.antt =====
-- The start and the end of the core, and its listings from the store. What the factory and `init`
-- of a provider give, what a provider's `shutdown` does, and the store's listings and its own
-- `shutdown` are arguments.
use textbee_gateway.Prelude.{ℕ, String, Option, List, [], ◌∷◌, Result, ok, err, ◌>>=◌}
use textbee_gateway.JsMap.{values}
use textbee_gateway.Core.Types.{CallSession, MessageRecord, RoutingRule}
use textbee_gateway.Core.Session.{Manager, Adapter, Reply, Failure}
use textbee_gateway.Core.Session.Operations.{Outcome, awaited, register_adapter, set_routing}
use textbee_gateway.Core.Session.Events.{events_channel}
use textbee_gateway.Persistence.Types.{PersistenceStore}

module _ {S W : Type 0} (store : PersistenceStore S) where
  -- `fromConfig`: the core subscribes to the bus, and then the providers are made, initialised and
  -- registered in turn; the first that fails ends it.
  register_all : List (Result Failure (Adapter W)) → Manager S W → Result Failure (Manager S W)
  register_all [] m = ok m
  register_all (err e ∷ rest) m = err e
  register_all (ok a ∷ rest) m = register_all rest (register_adapter a m)

  unfoldable pub from_config :
      List (Result Failure (Adapter W)) → List RoutingRule → ℕ → S → Result Failure (Manager S W)
  unfolding register_all
  from_config providers routing handler s = do
    m ← register_all providers (record {
      adapters = [];
      routing = [];
      calls = [];
      messages = [];
      listeners = [];
      store = store.subscribe_events events_channel handler s;
      handler = handler;
      pending = [];
      notices = [];
      readings = 0;
    })
    ok (set_routing routing m)

  -- Providers are stopped in turn, and what one emits meanwhile is handled; the first that throws
  -- ends it.
  module _ (now : ℕ → String) (stop : Adapter W → W → Reply W (Unit {0})) where
    stop_next :
        Outcome S W (Unit {0}) → (Manager S W → W → Outcome S W (Unit {0})) → Outcome S W (Unit {0})
    stop_next (err e, m, w) rest = (err e, m, w)
    stop_next (ok u, m, w) rest = rest m w

    stop_all : List (Adapter W) → Manager S W → W → Outcome S W (Unit {0})
    unfolding stop_next
    stop_all [] m w = (ok tt, m, w)
    stop_all (a ∷ adapters) m w =
        stop_next (awaited store now a.id (stop a w) m) (λ m' w'. stop_all adapters m' w')

    unfoldable pub shutdown : (S → S) → Manager S W → W → Outcome S W (Unit {0})
    unfolding stop_all stop_next
    shutdown close m w =
        stop_next (stop_all (values m.adapters) m w)
          (λ m' w'. (ok tt, record m' { store = close m'.store }, w'))

module _ {S W : Type 0} where
  unfoldable pub list_calls_durable :
      (Option ℕ → S → List CallSession) → Option ℕ → Manager S W → List CallSession
  list_calls_durable stored limit m = stored limit m.store

  unfoldable pub list_messages_durable :
      (Option ℕ → S → List MessageRecord) → Option ℕ → Manager S W → List MessageRecord
  list_messages_durable stored limit m = stored limit m.store
