-- ===== src/Scenarios/Statuses.antt =====
-- internal/status: the theorems at one resource and one watch.
use inari_agent.Prelude.{
  ℕ, zero, suc, Str, codes, Bool, true, not, none, some, ok, [], ◌∷◌, ◌≡◌, refl, arith,
}
use inari_agent.Status.Streamer.{healthy, synced, StatusUpdate, Meta}
use inari_agent.Status.Health.{ObjectStatus}
use inari_agent.Status.Watches.{WatchResource, parse_entry}
use inari_agent.Status.Watches.Entries.{print_entry, parse-print_entry}

abbrev secret_meta : Meta
secret_meta = record {
  kind = codes "App";
  group = codes "a.io";
  namespace = codes "ns";
  name = codes "x";
  uid = codes "u1";
}

abbrev ready_update : StatusUpdate
ready_update = record {
  resource = record {
    kind = codes "App";
    name = codes "x";
    namespace = codes "ns";
    uid = codes "u1";
  };
  health = healthy;
  sync = synced;
  message = codes "fine";
}

abbrev message_sum : StatusUpdate → Str
message_sum u = 35 ∷ u.message

-- A sender that counts, and delivers while the count is even.
abbrev even : ℕ → Bool
even zero = true
even (suc n) = not (even n)

abbrev counted : StatusUpdate → ℕ → Bool × ℕ
counted u n = (even n, suc n)

abbrev ready_status : ObjectStatus
ready_status = record {
  health_status = none;
  health_message = [];
  sync_status = none;
  conditions = some (
      record { type_name = codes "Ready"; status = codes "True"; reason = []; message = codes "ok" }
      ∷ []);
}

abbrev pods : WatchResource
pods = record {
  group = codes "a";
  version = codes "v1";
  resource = codes "b";
  selector = codes "c/d";
}

parse-print_entry_example : parse_entry (λ s. true) (print_entry pods) ≡ ok pods
parse-print_entry_example =
    parse-print_entry (λ s. true) pods
      (record {
        version_given = refl;
        resource_given = refl;
        slashes = (
          ((λ e. absurd (omega arith)), tt),
          ((λ e. absurd (omega arith)), ((λ e. absurd (omega arith)), tt)),
          ((λ e. absurd (omega arith)), tt),
        );
        ats = (
          ((λ e. absurd (omega arith)), tt),
          ((λ e. absurd (omega arith)), ((λ e. absurd (omega arith)), tt)),
          ((λ e. absurd (omega arith)), tt),
        );
        selector_valid = refl;
      })
