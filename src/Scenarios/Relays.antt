-- ===== src/Scenarios/Relays.antt =====
-- internal/tunnelagent/relay.go: an upgrade on sockets with numbers.
use inari_agent.Prelude.{ℕ, Str, codes, true, none, ok, List, [], ◌∷◌, refl, ap}
use inari_agent.Tunnel.Message.{Open}
use inari_agent.Tunnel.Relay.{Net, Relay, do_upgrade}
use inari_agent.Tunnel.Relay.Sockets.{Sockets, After, KeepsBooks, IsSettled, do_upgrade-IsSettled}

abbrev without_last : List ℕ → List ℕ
without_last [] = []
without_last (x ∷ xs) = xs

abbrev next_socket : List ℕ → ℕ
next_socket [] = 3
next_socket (x ∷ xs) = 4

-- An API server that switches protocols; the world is the list of the open sockets.
abbrev switching : Net (List ℕ) ℕ Str Str
switching = record {
  parse_url = λ s. ok (record {
    scheme = codes "https";
    host = codes "kubernetes.default.svc";
    port = [];
    hostname = codes "kubernetes.default.svc";
  });
  new_request = λ method target content. ok (record {
    method = method;
    target = target;
    url_host = codes "kubernetes.default.svc";
    host = [];
    proto = codes "HTTP/1.1";
    headers = [];
    content = content;
  });
  round_trip = λ req w. (ok (record { status = 200; headers = []; content = [] }), w);
  dial = λ addr w. (ok (next_socket w), next_socket w ∷ w);
  handshake = λ config name c w. (ok c, w);
  write_request = λ req c w. (ok tt, w);
  read_response = λ c w. (ok (record { status = 101; headers = []; content = [] }), w);
  close = λ c w. (ok tt, without_last w);
  close_content = λ b w. (ok tt, w);
}

abbrev in_cluster : Relay (List ℕ)
in_cluster = record {
  base_url = codes "https://kubernetes.default.svc";
  bearer_token = codes "sa";
  token_func = none;
  tls_config = none;
}

abbrev numbered : Sockets (List ℕ) ℕ
numbered = record { Socket = ℕ; sockets = λ w. w; socket = λ c. c }

switching-KeepsBooks : KeepsBooks switching in_cluster numbered
unfolding After
switching-KeepsBooks = record {
  on_dial = λ addr w. refl;
  on_handshake = λ config name c w. (refl, refl);
  on_write = λ req c w. refl;
  on_read = λ c w. refl;
  on_close = λ c w ss e. ap without_last e;
  on_close_content = λ b w. refl;
  on_token = λ f w e. cc;
}

abbrev exec_request : Open
exec_request = record {
  method = codes "POST";
  path = codes "/exec";
  headers = [];
  upgrade_expected = true;
}

do_upgrade-IsSettled_example : IsSettled switching numbered (7 ∷ []) (
    do_upgrade switching in_cluster
      (codes "https://kubernetes.default.svc/exec")
      exec_request
      (7 ∷ []))
do_upgrade-IsSettled_example =
    do_upgrade-IsSettled switching in_cluster numbered switching-KeepsBooks
      (codes "https://kubernetes.default.svc/exec") exec_request (7 ∷ [])
