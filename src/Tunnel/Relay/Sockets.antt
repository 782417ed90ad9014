-- ===== src/Tunnel/Relay/Sockets.antt =====
-- Which sockets an upgrade of the relay leaves open.
use inari_agent.Prelude.{
  Str, codes, true, false, Bool-cases, Option, none, some, Outcome, ok, err, List, ◌∷◌, ◌≡◌, ◌⊎◌,
  inl, inr, refl, sym, ap, ◌∙◌, str_eq, ◌==◌,
}
use mathlib.Core.Path.{subst}
use inari_agent.Prelude.Effect.{Effect, pure, lift, on_error, ◌>>=◌, ◌>>◌}
use inari_agent.Tunnel.Message.{Open}
use inari_agent.Tunnel.Relay.{
  Url, Request, Response, Net, raw, closing, Result, Relay, address, server_name, for_upgrade,
  or_close, read_token, with_headers, secured, upgrade_result, upgrade_on, do_upgrade, close_body,
}

-- The sockets that are open in a world, the last one in front.
pub record Sockets (W C : Type 0) : Type 1 where
  pub Socket : Type 0
  pub sockets : W → List Socket
  pub socket : C → Socket

-- How a step ends: with an error the open sockets are `ss`, with a value they are as `P` says.
unfoldable pub After :
    {W C E A : Type 0} (s : Sockets W C)
    → List s.Socket
    → (A → List s.Socket → Type 0)
    → Outcome E A × W
    → Type 0
After s ss P (err e, w) = s.sockets w ≡ ss
After s ss P (ok a, w) = P a (s.sockets w)

-- Dialing opens a socket, closing its connection closes it, and nothing else does either. The TLS
-- connection is on the socket of the one below it.
pub record KeepsBooks {W C B R : Type 0} (net : Net W C B R) (relay : Relay W) (s : Sockets W C)
    : Type 0 where
  pub on_dial :
      (addr : Str) (w : W)
      → After s (s.sockets w) (λ c ss. ss ≡ s.socket c ∷ s.sockets w) (net.dial addr w)
  pub on_handshake :
      (config : Option Str) (name : Str) (c : C) (w : W)
      → After s
          (s.sockets w)
          (λ c' ss. (s.socket c' ≡ s.socket c) × (ss ≡ s.sockets w))
          (net.handshake config name c w)
  pub on_write :
      (req : Request R) (c : C) (w : W) → s.sockets (net.write_request req c w).1 ≡ s.sockets w
  pub on_read : (c : C) (w : W) → s.sockets (net.read_response c w).1 ≡ s.sockets w
  pub on_close :
      (c : C) (w : W) (ss : List s.Socket)
      → s.sockets w ≡ s.socket c ∷ ss
      → s.sockets (net.close c w).1 ≡ ss
  pub on_close_content : (b : B) (w : W) → s.sockets (net.close_content b w).1 ≡ s.sockets w
  pub on_token :
      (f : W → Str × W) (w : W) → relay.token_func ≡ some f → s.sockets (f w).1 ≡ s.sockets w

module _ {W C : Type 0} (s : Sockets W C) (ss : List s.Socket) where
  after-bind :
      {A B : Type 0} (P : A → List s.Socket → Type 0) (Q : B → List s.Socket → Type 0)
      (m : Effect W Str A) (f : A → Effect W Str B) (w : W)
      → After s ss P (m w)
      → ((a : A) (v : W) → P a (s.sockets v) → After s ss Q (f a v))
      → After s ss Q ((m >>= f) w)
  unfolding ◌>>=◌ After
  after-bind {A} {B} P Q m f w h k = run (m w) h
    where
      run : (p : Outcome Str A × W) → After s ss P p → After s ss Q (◌>>=◌ (λ _. p) f w)
      run (err e, v) g = g
      run (ok a, v) g = k a v g

  after-on_error :
      {A : Type 0} (P : A → List s.Socket → Type 0) (what : Str → Str) (m : Effect W Str A) (w : W)
      → After s ss P (m w)
      → After s ss P (on_error what m w)
  unfolding on_error After
  after-on_error {A} P what m w h = run (m w) h
    where
      run : (p : Outcome Str A × W) → After s ss P p → After s ss P (on_error what (λ _. p) w)
      run (err e, v) g = g
      run (ok a, v) g = g

  after-lift :
      {A : Type 0} (r : Outcome Str A) (w : W)
      → s.sockets w ≡ ss
      → After s ss (λ a now. now ≡ ss) (lift r w)
  unfolding lift After
  after-lift (err e) w h = h
  after-lift (ok a) w h = h

  after-unchanged :
      {A : Type 0} (m : Effect W Str A) (w : W)
      → s.sockets (m w).1 ≡ ss
      → After s ss (λ a now. now ≡ ss) (m w)
  unfolding After
  after-unchanged {A} m w h = run (m w) h
    where
      run : (p : Outcome Str A × W) → s.sockets p.1 ≡ ss → After s ss (λ a now. now ≡ ss) p
      run (err e, v) g = g
      run (ok a, v) g = g

module _ {W C B R : Type 0} (net : Net W C B R) (relay : Relay W) (s : Sockets W C)
    (books : KeepsBooks net relay s) (ss : List s.Socket) where
  -- An error behind which the connection is closed leaves the sockets below it.
  after-or_close :
      {A : Type 0} (P : A → List s.Socket → Type 0) (c : C) (what : Str) (m : Effect W Str A)
      (w : W)
      → After s (s.socket c ∷ ss) P (m w)
      → After s ss P (or_close net c what m w)
  unfolding or_close After
  after-or_close {A} P c what m w h = run (m w) h
    where
      run :
          (p : Outcome Str A × W)
          → After s (s.socket c ∷ ss) P p
          → After s ss P (or_close net c what (λ _. p) w)
      run (err e, v) g = books.on_close c v ss g
      run (ok a, v) g = g

  with_headers-sockets :
      (o : Open) (req : Request R) (c : C) (w : W)
      → s.sockets w ≡ s.socket c ∷ ss
      → After s ss (λ a now. now ≡ s.socket c ∷ ss) (with_headers net relay o req w)
  unfolding with_headers read_token ◌>>=◌ pure After
  with_headers-sockets o req c w h = run relay.token_func refl
    where
      run :
          (t : Option (W → Str × W))
          → relay.token_func ≡ t
          → After s ss (λ a now. now ≡ s.socket c ∷ ss) (with_headers net relay o req w)
      run none e = rw e h
      run (some f) e = rw e (books.on_token f w e ∙ h)

  secured-sockets :
      (u : Url) (c : C) (w : W)
      → s.sockets w ≡ s.socket c ∷ ss
      → After s ss (λ c' now. now ≡ s.socket c' ∷ ss) (secured net relay u c w)
  unfolding secured pure After
  secured-sockets u c w h = elim (Bool-cases (str_eq u.scheme (codes "https"))) [
    | inr n ↦ rw n h
    | inl t ↦ rw t (
        after-or_close (λ c' now. now ≡ s.socket c' ∷ ss) c (codes "apiserver TLS handshake")
          (net.handshake relay.tls_config (server_name relay.tls_config u) c) w
          (run (net.handshake relay.tls_config (server_name relay.tls_config u) c w)
            (books.on_handshake relay.tls_config (server_name relay.tls_config u) c w)))
  ]
    where
      run :
          (p : Outcome Str C × W)
          → After s (s.sockets w) (λ c' now. (s.socket c' ≡ s.socket c) × (now ≡ s.sockets w)) p
          → After s (s.socket c ∷ ss) (λ c' now. now ≡ s.socket c' ∷ ss) p
      run (err e, v) g = g ∙ h
      run (ok c', v) (same, g) = g ∙ h ∙ ap (λ x. x ∷ ss) (sym same)

-- A result holds the connection: the body closes it, and it is the upgraded one exactly at status 101.
abbrev pub IsHeld : {C B : Type 0} → C → Result C B → Type 0
IsHeld c r =
    ((r.status == 101 ≡ true) × (r.body ≡ raw c) × (r.upgraded ≡ some c))
    ⊎ ((b : _) × (r.status == 101 ≡ false) × (r.body ≡ closing b c) × (r.upgraded ≡ none))

upgrade_result-IsHeld :
    {W C B R : Type 0} (net : Net W C B R) (c : C) (resp : Response B)
    → IsHeld c (upgrade_result net c resp)
unfolding upgrade_result
upgrade_result-IsHeld net c resp = elim (Bool-cases (resp.status == 101)) [
  | inl t ↦ inl (rw t t, rw t refl, rw t refl)
  | inr n ↦ inr (resp.content, rw n n, rw n refl, rw n refl)
]

module _ {W C B R : Type 0} (net : Net W C B R) (relay : Relay W) (s : Sockets W C)
    (books : KeepsBooks net relay s) (ss : List s.Socket) where
  abbrev Holds : Result C B → List s.Socket → Type 0
  Holds r now = (c : C) × (now ≡ s.socket c ∷ ss) × IsHeld c r

  answered :
      (c : C) (resp : Response B) (w : W)
      → s.sockets w ≡ s.socket c ∷ ss
      → After {E = Str} s ss Holds (pure (upgrade_result net c resp) w)
  unfolding After pure
  answered c resp w h = (c, h, upgrade_result-IsHeld net c resp)

  upgrade_on-sockets :
      (target : Str) (o : Open) (c : C) (w : W)
      → s.sockets w ≡ s.socket c ∷ ss
      → After s ss Holds (upgrade_on net relay target o c w)
  unfolding upgrade_on ◌>>◌
  upgrade_on-sockets target o c w h =
      let build = lift (net.new_request o.method target none) in
      after-bind s ss on_conn Holds _ _ w
        (after-or_close net relay s books ss on_conn c (codes "build upgrade request") build w
          (after-lift s (s.socket c ∷ ss) (net.new_request o.method target none) w h))
        λ req w1 h1.
          after-bind s ss on_conn Holds _ _ w1
            (with_headers-sockets net relay s books ss o req c w1 h1)
            λ full w2 h2.
              after-bind s ss on_conn Holds _ _ w2
                (unchanged (codes "write upgrade request") (net.write_request (for_upgrade full) c)
                  w2 (books.on_write (for_upgrade full) c w2 ∙ h2))
                λ u w3 h3.
                  after-bind s ss on_conn Holds _ _ w3
                    (unchanged (codes "read upgrade response") (net.read_response c) w3
                      (books.on_read c w3 ∙ h3))
                    λ resp w4 h4. answered c resp w4 h4
    where
      on_conn : {A : Type 0} → A → List s.Socket → Type 0
      on_conn a now = now ≡ s.socket c ∷ ss

      unchanged :
          {A : Type 0} (what : Str) (m : Effect W Str A) (v : W)
          → s.sockets (m v).1 ≡ s.socket c ∷ ss
          → After s ss on_conn (or_close net c what m v)
      unchanged what m v e =
          after-or_close net relay s books ss on_conn c what m v
            (after-unchanged s (s.socket c ∷ ss) m v e)

  do_upgrade-sockets :
      (target : Str) (o : Open) (w : W)
      → s.sockets w ≡ ss
      → After s ss Holds (do_upgrade net relay target o w)
  unfolding do_upgrade
  do_upgrade-sockets target o w h =
      after-bind s ss (λ u now. now ≡ ss) Holds _ _ w
        (after-on_error s ss _ _ _ w (after-lift s ss _ w h))
        λ u w1 h1.
          after-bind s ss (λ c now. now ≡ s.socket c ∷ ss) Holds _ _ w1
            (after-on_error s ss _ _ _ w1 (dialed (address u) w1 h1))
            λ c w2 h2.
              after-bind s ss (λ c' now. now ≡ s.socket c' ∷ ss) Holds _ _ w2
                (secured-sockets net relay s books ss u c w2 h2)
                λ c' w3 h3. upgrade_on-sockets target o c' w3 h3
    where
      dialed :
          (addr : Str) (v : W)
          → s.sockets v ≡ ss
          → After s ss (λ c now. now ≡ s.socket c ∷ ss) (net.dial addr v)
      dialed addr v e =
          subst (λ now. After s now (λ c later. later ≡ s.socket c ∷ now) (net.dial addr v)) e
            (books.on_dial addr v)

  closed :
      (c : C) (r : Result C B) (w : W)
      → IsHeld c r
      → s.sockets w ≡ s.socket c ∷ ss
      → s.sockets (close_body net r.body w).1 ≡ ss
  unfolding close_body
  closed c r w (inl (x, y, z)) h = rw y (books.on_close c w ss h)
  closed c r w (inr (b, x, y, z)) h =
      rw y (books.on_close c (net.close_content b w).1 ss (books.on_close_content b w ∙ h))

-- What an upgrade leaves behind in a world: with an error the sockets of before; with a result, one more,
-- and the sockets of before once the result's body is closed.
unfoldable pub IsSettled :
    {W C B R : Type 0} (net : Net W C B R) (s : Sockets W C)
    → List s.Socket
    → Outcome Str (Result C B) × W
    → Type 0
IsSettled net s ss (err e, w) = s.sockets w ≡ ss
IsSettled net s ss (ok r, w) =
    (c : _) × (s.sockets w ≡ s.socket c ∷ ss)
    × IsHeld c r
    × (s.sockets (close_body net r.body w).1 ≡ ss)

-- doUpgrade leaks no socket: where it returns an error, at whatever step, the sockets that are open are
-- those of before. Where it returns a result, there is one more, the result holds its connection (as
-- the upgraded one exactly at status 101), and closing the result's body leaves the sockets of before.
pub do_upgrade-IsSettled :
    {W C B R : Type 0} (net : Net W C B R) (relay : Relay W) (s : Sockets W C)
    → KeepsBooks net relay s
    → (target : Str) (o : Open) (w : W)
    → IsSettled net s (s.sockets w) (do_upgrade net relay target o w)
unfolding After IsSettled
do_upgrade-IsSettled {W} {C} {B} net relay s books target o w =
    run (do_upgrade net relay target o w)
      (do_upgrade-sockets net relay s books (s.sockets w) target o w refl)
  where
    run :
        (p : Outcome Str (Result C B) × W)
        → After s (s.sockets w) (Holds net relay s books (s.sockets w)) p
        → IsSettled net s (s.sockets w) p
    run (err e, v) h = h
    run (ok r, v) (c, h, held) = (c, h, held, closed net relay s books (s.sockets w) c r v held h)
