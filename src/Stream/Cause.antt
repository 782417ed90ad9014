-- ===== src/Stream/Cause.antt =====
-- internal/stream/client_connect.go: session errors and sessionCause.
use inari_agent.Prelude.{Str, Bool, true, false, if◌then◌else◌, Option, none, some}

-- The errors that a session returns: sentinels, the handshake wrapper and fmt.Errorf wrappers. A
-- `text` is any other error value.
pub data SessionError : Type 0 where
  canceled deadman send_pump token_rotation : SessionError
  text : Str → SessionError
  handshake_error : SessionError → SessionError
  wrapped : Str → SessionError → SessionError

pub data Label : Type 0 where
  shutdown handshake_label deadman_label token_rotation_label send_error recv_error : Label

-- errors.Is(err, context.Canceled)
unfoldable is_canceled : SessionError → Bool
is_canceled canceled = true
is_canceled (handshake_error e) = is_canceled e
is_canceled (wrapped s e) = is_canceled e
is_canceled _ = false

-- errors.As(err, &hsErr)
unfoldable as_handshake : SessionError → Bool
as_handshake (handshake_error e) = true
as_handshake (wrapped s e) = as_handshake e
as_handshake _ = false

-- errors.Is at the sentinels
unfoldable is_deadman : SessionError → Bool
is_deadman deadman = true
is_deadman (handshake_error e) = is_deadman e
is_deadman (wrapped s e) = is_deadman e
is_deadman _ = false

unfoldable pub is_rotation : SessionError → Bool
is_rotation token_rotation = true
is_rotation (handshake_error e) = is_rotation e
is_rotation (wrapped s e) = is_rotation e
is_rotation _ = false

unfoldable is_send_pump : SessionError → Bool
is_send_pump send_pump = true
is_send_pump (handshake_error e) = is_send_pump e
is_send_pump (wrapped s e) = is_send_pump e
is_send_pump _ = false

unfoldable session_cause : Option SessionError → Label
unfolding is_canceled as_handshake is_deadman is_rotation is_send_pump
session_cause none = shutdown
session_cause (some e) =
    if is_canceled e
    then shutdown
    else if as_handshake e
    then handshake_label
    else if is_deadman e
    then deadman_label
    else if is_rotation e
    then token_rotation_label
    else if is_send_pump e
    then send_error
    else recv_error
