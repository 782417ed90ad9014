-- ===== src/Scenarios/Tunnels.antt =====
-- internal/tunnelagent: the theorems at a small registry, body and set of headers.
use inari_agent.Prelude.{
  ◌+◌, ◌≤◌, Str, String, codes, true, false, if◌then◌else◌, none, some, Map, lookup, List, [], ◌∷◌,
  ◌++◌, length, ◌≡◌, refl, arith, str_eq,
}
use inari_agent.Tunnel.Message.{Open, open_request, frame, close, Payload, Message}
use inari_agent.Tunnel.Registry.{Handler, handle}
use inari_agent.Tunnel.Registry.Safety.{
  Act, receive, charged, consumed, reset, act_all, IsSafe, act_all-IsSafe,
}
use inari_agent.Tunnel.Registry.Isolation.{handle_isolates}
use inari_agent.Tunnel.Pump.{Read, more, eof, relayed_head, outbound_pump, run_conn}
use inari_agent.Tunnel.Pump.Merged.{Merged, ended, ours, theirs, without_closes}
use inari_agent.Tunnel.Pump.Protocol.{
  IsReply, IsConversation, sent_bytes, read_bytes, run_conn-IsConversation, pump_within_cap,
  pump_relays_whole,
}
use inari_agent.Tunnel.Headers.{apply_headers, authorization, canonical_key}
use inari_agent.Tunnel.Headers.Canonical.{authorization_is_ours}

abbrev fresh : Handler
fresh = record { conns = []; installed = true; outbox = []; max_conn_bytes = 100 }

abbrev get_request : Open
get_request = record {
  method = codes "GET";
  path = codes "/api";
  headers = [];
  upgrade_expected = false;
}

abbrev opening : String → Message
opening id = record { connection_id = codes id; payload = open_request (some get_request) }

abbrev data_for : String → String → Message
data_for id text = record {
  connection_id = codes id;
  payload = frame (some (record { bytes = codes text; half_close = false }));
}

abbrev session_acts : List Act
session_acts =
    receive (opening "a")
    ∷ receive (data_for "a" "hi")
    ∷ consumed (codes "a")
    ∷ charged (codes "a") 120
    ∷ reset
    ∷ []

act_all-IsSafe_example : IsSafe (act_all session_acts fresh)
act_all-IsSafe_example = act_all-IsSafe session_acts fresh tt

handle_isolates_example :
    lookup (codes "b") (handle (data_for "a" "hi") (handle (opening "b") fresh)).conns
    ≡ lookup (codes "b") (handle (opening "b") fresh).conns
unfolding str_eq
handle_isolates_example =
    handle_isolates (data_for "a" "hi") (codes "b") (handle (opening "b") fresh) refl

abbrev body : List Read
body =
    record { bytes = codes "ab"; end = more; inbound = 0 }
    ∷ record { bytes = codes "c"; end = eof; inbound = 1 }
    ∷ []

abbrev overflow : List Payload
overflow = close (codes "inbound-overflow") ∷ []

abbrev conversation : List Payload
conversation = run_conn 10 0 (relayed_head 200 []) body

-- The messages of one goroutine behind those of another
behind : (xs ys : List Payload) → Merged xs ys (ys ++ xs)
behind [] [] = ended
behind (x ∷ xs) [] = ours x (behind xs [])
behind xs (y ∷ ys) = theirs y (behind xs ys)

run_conn-IsConversation_example :
    IsConversation conversation × IsReply (without_closes (overflow ++ conversation))
run_conn-IsConversation_example =
    run_conn-IsConversation 10 0 (relayed_head 200 []) body overflow (overflow ++ conversation)
      (refl, tt) (behind conversation overflow)

pump_within_cap_example : 1 + length (sent_bytes (outbound_pump 3 1 body).sent) ≤ 3
pump_within_cap_example = pump_within_cap 3 1 body (omega arith)

pump_relays_whole_example :
    (sent_bytes (outbound_pump 10 0 body).sent ≡ read_bytes body)
    × ((outbound_pump 10 0 body).reason ≡ some (codes "complete"))
pump_relays_whole_example = pump_relays_whole 10 0 body (refl, refl) (omega arith)

abbrev forged : Map (List Str)
forged = (codes "authorization", codes "Bearer stolen" ∷ []) ∷ []

authorization_is_ours_example :
    lookup (codes "AUTHORIZATION") (apply_headers forged (codes "own") []) ≡ (
      if str_eq authorization (codes "AUTHORIZATION")
      then some ((codes "Bearer " ++ codes "own") ∷ [])
      else none)
unfolding canonical_key
authorization_is_ours_example =
    authorization_is_ours forged [] (codes "own") (codes "AUTHORIZATION") tt refl
