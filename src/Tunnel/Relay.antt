-- ===== src/Tunnel/Relay.antt =====
-- internal/tunnelagent/relay.go: Do and doUpgrade, on net/http, net and crypto/tls as an interface. What
-- sends the requests that are no upgrades is the interface's `round_trip`.
pub mod Sockets
use inari_agent.Prelude.{
  ℕ, Str, codes, if◌then◌else◌, Option, none, some, Outcome, ok, err, Map, insert, List, [], ◌∷◌,
  ◌++◌, str_eq, ◌==◌, is_empty,
}
use inari_agent.Prelude.Effect.{Effect, pure, lift, on_error, ◌>>=◌, ◌>>◌}
use inari_agent.Tunnel.Message.{Open}
use inari_agent.Tunnel.Headers.{apply_headers}

-- The scheme, Host, Port() and Hostname() of a URL.
pub record Url : Type 0 where
  pub scheme : Str
  pub host : Str
  pub port : Str
  pub hostname : Str

-- `R` are the readers of request bodies.
pub record Request (R : Type 0) : Type 0 where
  pub method : Str
  pub target : Str
  pub url_host : Str
  pub host : Str
  pub proto : Str
  pub headers : Map (List Str)
  pub content : Option R

-- `B` are the bodies of responses.
pub record Response (B : Type 0) : Type 0 where
  pub status : ℕ
  pub headers : Map (List Str)
  pub content : B

-- The handshake is given the ServerName of a configured TLSConfig (`none`: there is none, and TLS 1.2 is the
-- minimum) and the one to use, and yields the TLS connection over the one it is given.
pub record Net (W C B R : Type 0) : Type 0 where
  pub parse_url : Str → Outcome Str Url
  pub new_request : Str → Str → Option R → Outcome Str (Request R)
  pub round_trip : Request R → Effect W Str (Response B)
  pub dial : Str → Effect W Str C
  pub handshake : Option Str → Str → C → Effect W Str C
  pub write_request : Request R → C → Effect W Str (Unit {0})
  pub read_response : C → Effect W Str (Response B)
  pub close : C → Effect W Str (Unit {0})
  pub close_content : B → Effect W Str (Unit {0})

-- Result.Body: a response's body, rawConnReader, and connClosingReader.
pub data Body (C B : Type 0) : Type 0 where
  plain : B → Body C B
  raw : C → Body C B
  closing : B → C → Body C B

pub record Result (C B : Type 0) : Type 0 where
  pub status : ℕ
  pub headers : Map (List Str)
  pub body : Body C B
  pub upgraded : Option C

-- The TLSConfig is given by its ServerName.
pub record Relay (W : Type 0) : Type 0 where
  pub base_url : Str
  pub bearer_token : Str
  pub token_func : Option (W → Str × W)
  pub tls_config : Option Str

-- The address of an upgrade: the port of the scheme where the URL has none.
unfoldable address : Url → Str
address u =
    if is_empty u.port
    then u.host ++ (if str_eq u.scheme (codes "https") then codes ":443" else codes ":80")
    else u.host

abbrev server_name : Option Str → Url → Str
server_name none u = u.hostname
server_name (some name) u = if is_empty name then u.hostname else name

abbrev failing : Str → Str → Str
failing what e = codes "tunnelagent: " ++ (what ++ (codes ": " ++ e))

abbrev for_upgrade : {R : Type 0} → Request R → Request R
for_upgrade req = record req {
  headers = insert (codes "Connection") (codes "Upgrade" ∷ []) req.headers;
  proto = codes "HTTP/1.1";
}

module _ {W C B R : Type 0} (net : Net W C B R) where
  -- A step behind whose error the connection is closed: `_ = conn.Close()`.
  unfoldable or_close : {A : Type 0} → C → Str → Effect W Str A → Effect W Str A
  or_close c what m w =
      let (r, w') = m w in
      elim r [ ok a ↦ (ok a, w') | err e ↦ (err (failing what e), (net.close c w').1) ]

  unfoldable read_token : Relay W → Effect W Str Str
  read_token relay w = elim relay.token_func [
    | none ↦ (ok relay.bearer_token, w)
    | some f ↦ (ok (f w).0, (f w).1)
  ]

  -- applyHeaders on a request
  unfoldable with_headers : Relay W → Open → Request R → Effect W Str (Request R)
  unfolding read_token
  with_headers relay o req = do
    token ← read_token relay
    pure (record req {
      headers = apply_headers o.headers token req.headers;
      host = if is_empty req.host then req.url_host else req.host;
    })

  -- TLS over the connection, for https.
  unfoldable secured : Relay W → Url → C → Effect W Str C
  unfolding or_close
  secured relay u conn =
      if str_eq u.scheme (codes "https")
      then or_close conn (codes "apiserver TLS handshake")
          (net.handshake relay.tls_config (server_name relay.tls_config u) conn)
      else pure conn

  -- What doUpgrade returns for a response.
  unfoldable upgrade_result : C → Response B → Result C B
  upgrade_result conn resp =
      if resp.status == 101
      then (record {
        status = resp.status;
        headers = resp.headers;
        body = raw conn;
        upgraded = some conn;
      })
      else (record {
        status = resp.status;
        headers = resp.headers;
        body = closing resp.content conn;
        upgraded = none;
      })

  -- doUpgrade on its connection
  unfoldable upgrade_on : Relay W → Str → Open → C → Effect W Str (Result C B)
  unfolding or_close with_headers upgrade_result
  upgrade_on relay target o conn = do
    req ←
        or_close conn (codes "build upgrade request") (lift (net.new_request o.method target none))
    full ← with_headers relay o req
    or_close conn (codes "write upgrade request") (net.write_request (for_upgrade full) conn)
    resp ← or_close conn (codes "read upgrade response") (net.read_response conn)
    pure (upgrade_result conn resp)

  -- doUpgrade
  unfoldable pub do_upgrade : Relay W → Str → Open → Effect W Str (Result C B)
  unfolding address secured upgrade_on
  do_upgrade relay target o = do
    u ← on_error (failing (codes "parse request URL")) (lift (net.parse_url target))
    tcp ← on_error (failing (codes "dial apiserver")) (net.dial (address u))
    conn ← secured relay u tcp
    upgrade_on relay target o conn

  unfoldable plain_result : Response B → Result C B
  plain_result resp = record {
    status = resp.status;
    headers = resp.headers;
    body = plain resp.content;
    upgraded = none;
  }

  -- Do without an upgrade
  unfoldable pub do_plain : Relay W → Str → Open → Option R → Effect W Str (Result C B)
  unfolding with_headers plain_result
  do_plain relay target o content = do
    req ←
        on_error (failing (codes "build request")) (lift (net.new_request o.method target content))
    full ← with_headers relay o req
    resp ← on_error (failing (codes "apiserver request")) (net.round_trip full)
    pure (plain_result resp)

  -- Do
  unfoldable pub do_request : Relay W → Open → Option R → Effect W Str (Result C B)
  unfolding do_upgrade do_plain
  do_request relay o content = do
    let target = relay.base_url ++ o.path
    on_error (failing (codes "parse request URL")) (lift (net.parse_url target))
    if o.upgrade_expected then do_upgrade relay target o else do_plain relay target o content

  -- Close of Result.Body
  unfoldable pub close_body : Body C B → Effect W Str (Unit {0})
  close_body (plain b) w = net.close_content b w
  close_body (raw c) w = net.close c w
  close_body (closing b c) w = let (r, w') = net.close_content b w in (r, (net.close c w').1)
