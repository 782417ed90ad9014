-- ===== src/Command/Dispatcher.antt =====
-- internal/command/dispatcher.go: the Dispatcher and HandleEvent. A handler acts on the world `W`
-- (the cluster, git, the ArgoCD API); the controller's single event loop makes the calls one by one.
pub mod Branches
pub mod Replay
pub mod Failures
pub mod Durable
use inari_agent.Prelude.{
  ℕ, ◌+◌, Str, codes, Bool, true, if◌then◌else◌, Option, none, some, Outcome, ok, err, Map, lookup,
  insert, [], ◌∷◌, ◌++◌,
}
use inari_agent.Wire.{EventType, same_type, CommandResult, CommandAck, Event, Decoder, accepted}
use inari_agent.Command.Fault.{
  Fault, empty_event, command_error, disconnected, handler_failed, journal_failed,
}
use inari_agent.Command.Identity.{command_id_of}

-- KindHandler: a result with its message, or an error that may be transient.
abbrev pub KindHandler : Type 0 → Type 0 → Type 0
KindHandler P W = Event P → W → Outcome Str (CommandResult × Str) × W

-- The interface `Journal`.
pub record Journal (W : Type 0) : Type 0 where
  pub load : W → Outcome Str (Map CommandAck) × W
  pub save : CommandAck → W → Option Str × W

pub record Dispatcher (P W : Type 0) : Type 0 where
  pub seen : Map CommandAck
  pub handlers : EventType → Option (KindHandler P W)
  pub bridge_handlers : Map (KindHandler P W)
  pub journal : Option (Journal W)
  pub handled : ℕ
  pub connected : Bool

-- What HandleEvent returns, with the dispatcher and the world after it.
abbrev pub Handling : Type 0 → Type 0 → Type 0
Handling P W = Outcome Fault CommandAck × Dispatcher P W × W

-- Acks that are loaded do not replace acks that are there.
unfoldable preload : Map CommandAck → Map CommandAck → Map CommandAck
preload [] seen = seen
preload ((id, ack) ∷ loaded) seen =
    preload loaded (elim (lookup id seen) [ none ↦ insert id ack seen | some old ↦ seen ])

module _ {P W : Type 0} where
  unfoldable pub new_dispatcher : Dispatcher P W
  new_dispatcher = record {
    seen = [];
    handlers = λ t. none;
    bridge_handlers = [];
    journal = none;
    handled = 0;
    connected = true;
  }

  unfoldable pub register : EventType → KindHandler P W → Dispatcher P W → Dispatcher P W
  register t h d = record d { handlers = λ u. if same_type t u then some h else d.handlers u }

  unfoldable pub register_bridge : Str → KindHandler P W → Dispatcher P W → Dispatcher P W
  register_bridge s h d = record d { bridge_handlers = insert s h d.bridge_handlers }

  unfoldable pub set_connected : Bool → Dispatcher P W → Dispatcher P W
  set_connected v d = record d { connected = v }

  unfoldable pub attach_journal : Journal W → Dispatcher P W → W → Option Str × Dispatcher P W × W
  unfolding preload
  attach_journal j d w =
      let (loaded, w') = j.load w in
      elim loaded [
        | err e ↦ (some (codes "command: load journal: " ++ e), d, w')
        | ok acks ↦ (none, record d { seen = preload acks d.seen; journal = some j }, w')
      ]

  -- `handlers` first, then `bridgeHandlers`.
  unfoldable pub select_handler : EventType → Str → Dispatcher P W → Option (KindHandler P W)
  select_handler t s d = elim (d.handlers t) [ some h ↦ some h | none ↦ lookup s d.bridge_handlers ]

  -- The ack is recorded in memory, then written through; it is counted if that succeeds.
  unfoldable pub record_ack : Str → CommandAck → Dispatcher P W → W → Handling P W
  record_ack id ack d w =
      let d' = record d { seen = insert id ack d.seen } in
      elim d.journal [
        | none ↦ (ok ack, record d' { handled = d.handled + 1 }, w)
        | some j ↦
            let (failure, w') = j.save ack w in
            elim failure [
              | some e ↦ (err (command_error id (journal_failed e)), d', w')
              | none ↦ (ok ack, record d' { handled = d.handled + 1 }, w')
            ]
      ]

  unfoldable pub execute :
      Str → Option (KindHandler P W) → Event P → Dispatcher P W → W → Handling P W
  unfolding record_ack
  execute id none ev d w =
      record_ack id
        (record {
          command_id = id;
          result = accepted;
          message = codes "accepted (no handler registered)";
        })
        d w
  execute id (some h) ev d w =
      let (outcome, w') = h ev w in
      elim outcome [
        | err e ↦ (err (command_error id (handler_failed e)), d, w')
        | ok (result, message) ↦
            record_ack id (record { command_id = id; result = result; message = message }) d w'
      ]

  -- HandleEvent from the point where the command id is known.
  unfoldable pub handle_command : EventType → Str → Event P → Dispatcher P W → W → Handling P W
  unfolding execute select_handler
  handle_command t id ev d w = elim (lookup id d.seen) [
    | some ack ↦ (ok ack, d, w)
    | none ↦
        if d.connected
        then execute id (select_handler t ev.type_name d) ev d w
        else (err (command_error id disconnected), d, w)
  ]

module _ {P W : Type 0} (dec : Decoder P) where
  unfoldable pub handle_payload : Event P → Option P → Dispatcher P W → W → Handling P W
  unfolding handle_command
  handle_payload ev none d w = (err empty_event, d, w)
  handle_payload ev (some p) d w = elim (command_id_of dec ev p) [
    | err e ↦ (err e, d, w)
    | ok id ↦ handle_command (dec.event_type ev.type_name) id ev d w
  ]

  -- HandleEvent; `none` is a nil event.
  unfoldable pub handle_event : Option (Event P) → Dispatcher P W → W → Handling P W
  unfolding handle_payload
  handle_event none d w = (err empty_event, d, w)
  handle_event (some ev) d w = handle_payload ev ev.payload d w
