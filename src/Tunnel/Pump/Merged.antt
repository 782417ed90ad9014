-- ===== src/Tunnel/Pump/Merged.antt =====
-- internal/tunnelagent/handler.go: the messages of a connection come from several goroutines; those but
-- runConn send nothing but Closes.
use inari_agent.Prelude.{Bool, true, false, if◌then◌else◌, All, List, [], ◌∷◌, ◌≡◌, refl, ap}
use inari_agent.Tunnel.Message.{Payload, close}

abbrev is_close : Payload → Bool
is_close (close why) = true
is_close _ = false

-- What goes to the hub for a connection, Closes aside.
unfoldable pub without_closes : List Payload → List Payload
without_closes [] = []
without_closes (p ∷ ps) = let rest = without_closes ps in if is_close p then rest else p ∷ rest

-- The messages of two goroutines, in any order that keeps the order of each.
pub data Merged : List Payload → List Payload → List Payload → Type 0 where
  ended : Merged [] [] []
  ours : {xs ys zs : List Payload} (x : Payload) → Merged xs ys zs → Merged (x ∷ xs) ys (x ∷ zs)
  theirs : {xs ys zs : List Payload} (y : Payload) → Merged xs ys zs → Merged xs (y ∷ ys) (y ∷ zs)

abbrev pub AreCloses : List Payload → Type 0
AreCloses = All (λ p. is_close p ≡ true)

pub without_closes_merged :
    (xs ys zs : List Payload)
    → Merged xs ys zs
    → AreCloses ys
    → without_closes zs ≡ without_closes xs
unfolding without_closes
without_closes_merged xs ys zs ended c = refl
without_closes_merged xs ys zs (ours x m) c =
    ap (λ (r : List Payload). if is_close x then r else x ∷ r) (without_closes_merged _ _ _ m c)
without_closes_merged xs ys zs (theirs y m) (h, c) = rw h (without_closes_merged _ _ _ m c)
