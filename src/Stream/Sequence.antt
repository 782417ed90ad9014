-- ===== src/Stream/Sequence.antt =====
-- internal/stream/client_connect.go: Send, the pong branch of the receive pump, and the send pump, as
-- interleaved steps of any number of senders on one client.
pub mod Numbers
use inari_agent.Prelude.{
  ℕ, ◌+◌, ◌<◌, Bool, true, false, ◌||◌, if◌then◌else◌, List, [], ◌∷◌, ◌++◌, length, ◌≡◌, ltb, ◌==◌,
}

-- What travels: an event that Send stamped, or a pong, which carries no number.
pub data Item : Type 0 where
  stamped : ℕ → Item
  pong : Item

-- `seq` is the atomic counter; `pending` are the numbers that senders have taken and not yet queued;
-- `queue` is sendCh; `wire` is what bidi.Send has sent, latest first; `lost` are the numbers that
-- will not be sent.
pub record SendState : Type 0 where
  pub seq : ℕ
  pub pending : List ℕ
  pub queue : List Item
  pub wire : List Item
  pub lost : List ℕ

abbrev queue_capacity : ℕ
queue_capacity = 256

unfoldable remove : ℕ → List ℕ → List ℕ
remove n [] = []
remove n (m ∷ ms) = let rest = remove n ms in if m == n then ms else m ∷ rest

unfoldable pub holds : ℕ → List ℕ → Bool
holds n [] = false
holds n (m ∷ ms) = m == n || holds n ms

-- event.Sequence = c.seq.Add(1)
unfoldable pub stamp : SendState → SendState
stamp s = record s { seq = s.seq + 1; pending = (s.seq + 1) ∷ s.pending }

-- c.sendCh <- event
unfoldable pub enqueue : ℕ → SendState → SendState
unfolding remove
enqueue n s = record s { pending = remove n s.pending; queue = s.queue ++ (stamped n ∷ []) }

-- <-ctx.Done() in Send
unfoldable pub give_up : ℕ → SendState → SendState
unfolding remove
give_up n s = record s { pending = remove n s.pending; lost = n ∷ s.lost }

-- The pong branch: queued if there is room, else dropped.
unfoldable pub answer_ping : SendState → SendState
answer_ping s =
    if ltb (length s.queue) queue_capacity then record s { queue = s.queue ++ (pong ∷ []) } else s

abbrev number_of : Item → List ℕ
number_of (stamped n) = n ∷ []
number_of pong = []

-- The send pump takes the first item off the queue; bidi.Send succeeds or fails.
unfoldable pub pump : Bool → List Item → SendState → SendState
pump sent [] s = s
pump true (i ∷ rest) s = record s { queue = rest; wire = i ∷ s.wire }
pump false (i ∷ rest) s = record s { queue = rest; lost = number_of i ++ s.lost }

pub data Step (s : SendState) : SendState → Type 0 where
  take_number : Step s (stamp s)
  put : (n : ℕ) → holds n s.pending ≡ true → length s.queue < queue_capacity → Step s (enqueue n s)
  abandon : (n : ℕ) → holds n s.pending ≡ true → Step s (give_up n s)
  reply : Step s (answer_ping s)
  transmit : Step s (pump true s.queue s)
  transmit_failed : Step s (pump false s.queue s)

pub data Reach (s : SendState) : SendState → Type 0 where
  here : Reach s s
  next : {t u : SendState} → Reach s t → Step t u → Reach s u

abbrev pub initial : SendState
initial = record { seq = 0; pending = []; queue = []; wire = []; lost = [] }
