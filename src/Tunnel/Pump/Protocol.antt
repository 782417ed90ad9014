-- ===== src/Tunnel/Pump/Protocol.antt =====
-- internal/tunnelagent/handler.go: what a connection sends the hub.
use mathlib.Core.List.{append-nil}
use mathlib.Core.Path.{subst}
use inari_agent.Prelude.{
  ℕ, ◌+◌, ◌≤◌, ◌<◌, Str, codes, Bool-cases, leb→le, le→leb, Option, none, some, List, [], ◌∷◌, ◌++◌,
  length, length-append, ◌≡◌, ◌⊎◌, inl, inr, refl, sym, ap, ◌∙◌, arith, leb,
}
use inari_agent.Tunnel.Message.{Payload, frame, close, open_result, open_error}
use inari_agent.Tunnel.Pump.Merged.{Merged, AreCloses, without_closes, without_closes_merged}
use inari_agent.Tunnel.Pump.{
  more, eof, Read, Pumped, end_reason, data_frame, go_on, pump_read, outbound_pump, RelayResult,
  relay_failed, relayed_head, closing, run_conn,
}

-- The data frames among messages, and the bytes in them.
abbrev payload_bytes : Payload → Str
payload_bytes (frame (some f)) = f.bytes
payload_bytes _ = []

abbrev pub sent_bytes : List Payload → Str
sent_bytes [] = []
sent_bytes (p ∷ ps) = payload_bytes p ++ sent_bytes ps

-- What is charged while the body is read: its bytes, and those of the inbound pump.
abbrev pub all_charged : List Read → ℕ
all_charged [] = 0
all_charged (r ∷ rs) = r.inbound + length r.bytes + all_charged rs

abbrev pub read_bytes : List Read → Str
read_bytes [] = []
read_bytes (r ∷ rs) = r.bytes ++ read_bytes rs

-- Data frames, then at most one Close, and nothing after it.
abbrev IsStream : List Payload → Type 0
IsStream [] = Unit
IsStream (frame (some f) ∷ ps) = (0 < length f.bytes) × IsStream ps
IsStream (close why ∷ []) = Unit
IsStream _ = ⊥

-- An answer to an open: an error and a Close, or a head and a stream.
abbrev pub IsConversation : List Payload → Type 0
IsConversation (open_error e ∷ close why ∷ []) = Unit
IsConversation (open_result status headers ∷ ps) = IsStream ps
IsConversation _ = ⊥

closing-IsStream : (o : Option Str) → IsStream (closing o)
unfolding closing
closing-IsStream none = tt
closing-IsStream (some []) = tt
closing-IsStream (some (c ∷ s)) = tt

abbrev Streams : Pumped → Type 0
Streams p = IsStream (p.sent ++ closing p.reason)

pump_read-Streams :
    (limit charged : ℕ) (bytes : Str) (end : Option Str) (after : Pumped)
    → Streams after
    → Streams (pump_read limit charged bytes end after)
unfolding pump_read go_on closing
pump_read-Streams limit charged [] none after h = h
pump_read-Streams limit charged [] (some why) after h = closing-IsStream (some why)
pump_read-Streams limit charged (b ∷ bytes) end after h = elim (Bool-cases (leb charged limit)) [
  | inr n ↦ rw n tt
  | inl t ↦ rw t (kept end)
]
  where
    kept : (e : Option Str) → Streams (go_on (data_frame (b ∷ bytes) ∷ []) charged e after)
    kept none = (omega arith, h)
    kept (some why) = (omega arith, closing-IsStream (some why))

pump-Streams : (limit relayed : ℕ) (reads : List Read) → Streams (outbound_pump limit relayed reads)
unfolding outbound_pump closing
pump-Streams limit relayed [] = tt
pump-Streams limit relayed (r ∷ rs) =
    pump_read-Streams limit (relayed + r.inbound + length r.bytes) r.bytes (end_reason r.end)
      (outbound_pump limit (relayed + r.inbound + length r.bytes) rs)
      (pump-Streams limit (relayed + r.inbound + length r.bytes) rs)

abbrev AreFrames : List Payload → Type 0
AreFrames [] = Unit
AreFrames (frame (some f) ∷ ps) = (0 < length f.bytes) × AreFrames ps
AreFrames _ = ⊥

-- An error, or a head and non-empty data frames.
abbrev pub IsReply : List Payload → Type 0
IsReply (open_error e ∷ []) = Unit
IsReply (open_result status headers ∷ ps) = AreFrames ps
IsReply _ = ⊥

without_closes-AreFrames : (ps : List Payload) → IsStream ps → AreFrames (without_closes ps)
unfolding without_closes
without_closes-AreFrames [] h = tt
without_closes-AreFrames (frame (some f) ∷ ps) h = (h.0, without_closes-AreFrames ps h.1)
without_closes-AreFrames (frame none ∷ ps) h = absurd h
without_closes-AreFrames (close why ∷ []) h = tt
without_closes-AreFrames (close why ∷ p ∷ ps) h = absurd h
without_closes-AreFrames (Payload.open_request o ∷ ps) h = absurd h
without_closes-AreFrames (open_result status headers ∷ ps) h = absurd h
without_closes-AreFrames (open_error e ∷ ps) h = absurd h
without_closes-AreFrames (Payload.ping ∷ ps) h = absurd h
without_closes-AreFrames (Payload.absent ∷ ps) h = absurd h

run_conn-IsReply :
    (limit relayed : ℕ) (res : RelayResult) (reads : List Read)
    → IsReply (without_closes (run_conn limit relayed res reads))
unfolding run_conn without_closes
run_conn-IsReply limit relayed (relay_failed e) reads = tt
run_conn-IsReply limit relayed (relayed_head status headers) reads =
    without_closes-AreFrames _ (pump-Streams limit relayed reads)

-- Whatever the relay and the body do, runConn with its outbound pump sends an error and a Close, or the
-- response head, then non-empty data frames, then at most one Close, and nothing after it. The inbound
-- pump and deliverFrame may send Closes of their own for the connection, anywhere among these
-- messages; in all that the hub then gets for it, `sent`, there is, Closes aside, one error, or the
-- response head once and non-empty data frames behind it.
pub run_conn-IsConversation :
    (limit relayed : ℕ) (res : RelayResult) (reads : List Read) (others sent : List Payload)
    → AreCloses others
    → Merged (run_conn limit relayed res reads) others sent
    → IsConversation (run_conn limit relayed res reads) × IsReply (without_closes sent)
unfolding run_conn
run_conn-IsConversation limit relayed res reads others sent c m = (
  conversation res,
  subst IsReply (sym (without_closes_merged (run_conn limit relayed res reads) others sent m c))
      (run_conn-IsReply limit relayed res reads),
)
  where
    conversation : (r : RelayResult) → IsConversation (run_conn limit relayed r reads)
    conversation (relay_failed e) = tt
    conversation (relayed_head status headers) = pump-Streams limit relayed reads

-- No frame is sent, or those that are sent fit under the cap above what was charged.
abbrev Fits : ℕ → ℕ → Pumped → Type 0
Fits limit charged p =
    (length (sent_bytes p.sent) ≡ 0) ⊎ (charged + length (sent_bytes p.sent) ≤ limit)

Fits-go_on :
    (limit relayed charged b : ℕ) (bytes : Str) (end : Option Str) (after : Pumped)
    → relayed + length (b ∷ bytes) ≤ charged
    → charged ≤ limit
    → Fits limit charged after
    → Fits limit relayed (go_on (data_frame (b ∷ bytes) ∷ []) charged end after)
unfolding go_on
Fits-go_on limit relayed charged b bytes (some why) after c k h =
    inr (omega (arith, length-append (b ∷ bytes) []))
Fits-go_on limit relayed charged b bytes none after c k (inl h) =
    inr (omega (arith, h, length-append (b ∷ bytes) (sent_bytes after.sent)))
Fits-go_on limit relayed charged b bytes none after c k (inr h) =
    inr (omega (arith, length-append (b ∷ bytes) (sent_bytes after.sent)))

Fits-pump_read :
    (limit relayed charged : ℕ) (bytes : Str) (end : Option Str) (after : Pumped)
    → relayed + length bytes ≤ charged
    → Fits limit charged after
    → Fits limit relayed (pump_read limit charged bytes end after)
unfolding pump_read go_on
Fits-pump_read limit relayed charged [] none after c (inl h) = inl h
Fits-pump_read limit relayed charged [] none after c (inr h) = inr (omega arith)
Fits-pump_read limit relayed charged [] (some why) after c h = inl refl
Fits-pump_read limit relayed charged (b ∷ bytes) end after c h =
    elim (Bool-cases (leb charged limit)) [
      | inr n ↦ rw n (inl refl)
      | inl t ↦ rw t (Fits-go_on limit relayed charged b bytes end after c (leb→le _ _ t) h)
    ]

Fits-pump :
    (limit relayed : ℕ) (reads : List Read) → Fits limit relayed (outbound_pump limit relayed reads)
unfolding outbound_pump
Fits-pump limit relayed [] = inl refl
Fits-pump limit relayed (r ∷ rs) =
    let charged = relayed + r.inbound + length r.bytes in
    Fits-pump_read limit relayed charged r.bytes (end_reason r.end) (outbound_pump limit charged rs)
      (omega arith) (Fits-pump limit charged rs)

-- The bytes that a connection has relayed before, with those that its pump sends as frames, never
-- pass the cap, however much the body holds and whatever the inbound pump charges meanwhile.
pub pump_within_cap :
    (limit relayed : ℕ) (reads : List Read)
    → relayed ≤ limit
    → relayed + length (sent_bytes (outbound_pump limit relayed reads).sent) ≤ limit
pump_within_cap limit relayed reads h = elim (Fits-pump limit relayed reads) [
  | inl e ↦ omega (arith, e)
  | inr k ↦ k
]

-- A body that ends with io.EOF and no error before.
abbrev IsWhole : List Read → Type 0
IsWhole [] = ⊥
IsWhole (r ∷ []) = r.end ≡ eof
IsWhole (r ∷ s ∷ rs) = (r.end ≡ more) × IsWhole (s ∷ rs)

pump_read_kept :
    (limit charged : ℕ) (bytes : Str) (end : Option Str) (after : Pumped)
    → charged ≤ limit
    → (end ≡ none)
    → (sent_bytes (pump_read limit charged bytes end after).sent ≡ bytes ++ sent_bytes after.sent)
      × ((pump_read limit charged bytes end after).reason ≡ after.reason)
unfolding pump_read
pump_read_kept limit charged [] end after c e = rw (e, go_on) (refl, refl)
pump_read_kept limit charged (b ∷ bytes) end after c e =
    rw (le→leb _ _ c) (rw (e, go_on) (refl, refl))

pump_read_ended :
    (limit charged : ℕ) (bytes : Str) (end : Option Str) (after : Pumped) (why : Str)
    → charged ≤ limit
    → (end ≡ some why)
    → (sent_bytes (pump_read limit charged bytes end after).sent ≡ bytes)
      × ((pump_read limit charged bytes end after).reason ≡ some why)
unfolding pump_read
pump_read_ended limit charged [] end after why c e = rw (e, go_on) (refl, refl)
pump_read_ended limit charged (b ∷ bytes) end after why c e =
    rw (le→leb _ _ c) (rw (e, go_on) (append-nil (b ∷ bytes), refl))

-- A body that ends with EOF is relayed whole, if it and what the inbound pump charges until then fit
-- under the cap: the frames hold its bytes in order, and the pump ends with the reason "complete".
pub pump_relays_whole :
    (limit relayed : ℕ) (reads : List Read)
    → IsWhole reads
    → relayed + all_charged reads ≤ limit
    → (sent_bytes (outbound_pump limit relayed reads).sent ≡ read_bytes reads)
      × ((outbound_pump limit relayed reads).reason ≡ some (codes "complete"))
unfolding outbound_pump
pump_relays_whole limit relayed [] w h = absurd w
pump_relays_whole limit relayed (r ∷ []) w h =
    let charged = relayed + r.inbound + length r.bytes in
    let (a, b) =
      pump_read_ended limit charged r.bytes (end_reason r.end) (outbound_pump limit charged [])
        (codes "complete") (omega arith) (rw w refl) in
    (a ∙ sym (append-nil r.bytes), b)
pump_relays_whole limit relayed (r ∷ s ∷ rs) w h =
    let charged = relayed + r.inbound + length r.bytes in
    let (a, b) =
      pump_read_kept limit charged r.bytes (end_reason r.end) (outbound_pump limit charged (s ∷ rs))
        (omega arith) (rw w.0 refl) in
    let (c, d) = pump_relays_whole limit charged (s ∷ rs) w.1 (omega arith) in
    (a ∙ ap (λ (t : Str). r.bytes ++ t) c, b ∙ d)
