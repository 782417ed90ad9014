-- ===== src/Command/Journal/Saved.antt =====
-- internal/command/journal.go: what a successful Record leaves in the ConfigMap, and what Load
-- reads back.
use inari_agent.Prelude.{
  ℕ, zero, suc, Str, Bool-cases, Outcome-cases, ok-injective, Option, none, some, ok, Map, lookup,
  [], ◌∷◌, ◌≡◌, inl, inr, refl, sym, ap, ◌∙◌, str_eq, IsMap,
}
use inari_agent.Wire.{CommandAck}
use inari_agent.Command.Dispatcher.Durable.{IsDurable}
use inari_agent.Command.Journal.{
  ConfigMap, GetReply, found, not_found, get_failed, WriteReply, written, already_exists, conflict,
  write_failed, ConfigMapApi, AckCodec, with_entry, after_create, after_update, after_get,
  save_attempts, decode_all, save, load, config_map_journal,
}
use inari_agent.Command.Journal.Eviction.{Written, with_entry-Written}

-- Documented behaviour of the API server: an update that is accepted is what the next read finds,
-- and the keys of a ConfigMap are distinct.
pub record IsStore {W : Type 0} (api : ConfigMapApi W) : Type 0 where
  pub read_update :
      (cm : ConfigMap) (w : W)
      → (api.update cm w).0 ≡ written
      → (n : ℕ) × ((api.get (api.update cm w).1).0
          ≡ found (record { version = n; entries = cm.entries }))
  pub read_distinct : (w : W) (cm : ConfigMap) → (api.get w).0 ≡ found cm → IsMap cm.entries

-- Documented behaviour of encoding/json: what was encoded decodes to the same value.
pub record IsInverse (codec : AckCodec) : Type 0 where
  pub decode_encode :
      (a : CommandAck) (raw : Str) → codec.encode a ≡ ok raw → codec.decode raw ≡ ok a

-- The worlds that Record passes from `w` on before its last attempt: there it has created the ConfigMap
-- with its one entry where none was found, or had an update refused that was made from what it read.
pub data Tried {W : Type 0} (api : ConfigMapApi W) (id raw : Str) (w : W) : W → Type 0 where
  start : Tried api id raw w w
  created :
      {v : W}
      → Tried api id raw w v
      → (api.get v).0 ≡ not_found
      → Tried api id raw w (api.create ((id, raw) ∷ []) (api.get v).1).1
  refused :
      {v : W} (old next : ConfigMap)
      → Tried api id raw w v
      → (api.get v).0 ≡ found old
      → Written id raw old.entries next.entries
      → (api.update next (api.get v).1).0 ≡ conflict
      → Tried api id raw w (api.update next (api.get v).1).1

-- What Record did from `w` to `u`: its last attempt read a ConfigMap, at `at`, and its update, under the
-- version that it read, was accepted; `Written` says what it made of the entries that it read. The
-- next read finds these.
pub record Landed {W : Type 0} (api : ConfigMapApi W) (id raw : Str) (w u : W) : Type 0 where
  pub at : W
  pub tried : Tried api id raw w at
  pub old : ConfigMap
  pub was_read : (api.get at).0 ≡ found old
  pub next : ConfigMap
  pub same_version : next.version ≡ old.version
  pub is_written : Written id raw old.entries next.entries
  pub accepted : api.update next (api.get at).1 ≡ (written, u)
  pub version : ℕ
  pub is_found : (api.get u).0 ≡ found (record { version = version; entries = next.entries })

module _ {W : Type 0} (api : ConfigMapApi W) (store : IsStore api) (id raw : Str) (w : W) where
  abbrev Lands : (W → Option Str × W) → Type 0
  Lands f = (v : W) → Tried api id raw w v → (f v).0 ≡ none → Landed api id raw w (f v).1

  after_create-Landed :
      (again : W → Option Str × W) (v : W) (r : WriteReply)
      → Lands again
      → Tried api id raw w v
      → (after_create again r v).0 ≡ none
      → Landed api id raw w (after_create again r v).1
  unfolding after_create
  after_create-Landed again v written l t h = l v t h
  after_create-Landed again v already_exists l t h = l v t h
  after_create-Landed again v conflict l t h = cc
  after_create-Landed again v (write_failed e) l t h = cc

  abbrev made_of : ConfigMap → ConfigMap
  made_of cm = record cm { entries = with_entry id raw cm.entries }

  after_update-Landed :
      (again : W → Option Str × W) (cm : ConfigMap) (v : W) (r : WriteReply)
      → Lands again
      → Tried api id raw w v
      → (api.get v).0 ≡ found cm
      → (api.update (made_of cm) (api.get v).1).0 ≡ r
      → (after_update again r (api.update (made_of cm) (api.get v).1).1).0 ≡ none
      → Landed api id raw w (after_update again r (api.update (made_of cm) (api.get v).1).1).1
  unfolding after_update
  after_update-Landed again cm v written l t g e h =
      let (n, f) = store.read_update (made_of cm) (api.get v).1 e in
      record {
        at = v;
        tried = t;
        old = cm;
        was_read = g;
        next = made_of cm;
        same_version = refl;
        is_written = with_entry-Written id raw cm.entries (store.read_distinct v cm g);
        accepted = ap (λ (x : WriteReply). (x, (api.update (made_of cm) (api.get v).1).1)) e;
        version = n;
        is_found = f;
      }
  after_update-Landed again cm v conflict l t g e h =
      l _
        (refused cm (made_of cm) t g
          (with_entry-Written id raw cm.entries (store.read_distinct v cm g)) e)
        h
  after_update-Landed again cm v already_exists l t g e h = cc
  after_update-Landed again cm v (write_failed x) l t g e h = cc

  after_get-Landed :
      (again : W → Option Str × W) (v : W) (r : GetReply)
      → Lands again
      → Tried api id raw w v
      → (api.get v).0 ≡ r
      → (after_get api again id raw r (api.get v).1).0 ≡ none
      → Landed api id raw w (after_get api again id raw r (api.get v).1).1
  unfolding after_get
  after_get-Landed again v not_found l t e h =
      after_create-Landed again _ (api.create ((id, raw) ∷ []) (api.get v).1).0 l (created t e) h
  after_get-Landed again v (get_failed x) l t e h = cc
  after_get-Landed again v (found cm) l t e h = after_update-Landed again cm v _ l t e refl h

  save_attempts-Lands : (n : ℕ) → Lands (save_attempts api n id raw)
  unfolding save_attempts
  save_attempts-Lands zero v t h = cc
  save_attempts-Lands (suc n) v t h =
      after_get-Landed (save_attempts api n id raw) v (api.get v).0 (save_attempts-Lands n) t refl h

lookup-decode_all :
    (codec : AckCodec) (id raw : Str) (a : CommandAck) (m : Map Str) (acks : Map CommandAck)
    → codec.decode raw ≡ ok a
    → lookup id m ≡ some raw
    → decode_all codec m ≡ ok acks
    → lookup id acks ≡ some a
unfolding decode_all lookup
lookup-decode_all codec id raw a [] acks c h e = cc
lookup-decode_all codec id raw a ((k, r) ∷ m) acks c h e = elim (Outcome-cases (codec.decode r)) [
  | inl (x, q) ↦ cc (rw (q, decode_all) at e)
  | inr (b, q) ↦ elim (Outcome-cases (decode_all codec m)) [
    | inl (x, p) ↦ cc (rw (q, p, decode_all) at e)
    | inr (rest, p) ↦
        let eq = ok-injective (rw (q, p, decode_all) at e) in
        rw (← eq) (elim (Bool-cases (str_eq k id)) [
          | inl t ↦
              let r_raw : r ≡ raw = cc (rw (t, lookup) at h) in
              rw t (ap some (ok-injective (sym q ∙ ap codec.decode r_raw ∙ c)))
          | inr t ↦ rw t (lookup-decode_all codec id raw a m rest c (rw (t, lookup) at h) p)
        ])
  ]
]

module _ {W : Type 0} (api : ConfigMapApi W) (codec : AckCodec) (store : IsStore api)
    (inverse : IsInverse codec) where
  load-Landed :
      (a : CommandAck) (raw : Str) (w u : W) (m : Map CommandAck)
      → codec.encode a ≡ ok raw
      → Landed api a.command_id raw w u
      → (load api codec u).0 ≡ ok m
      → lookup a.command_id m ≡ some a
  unfolding load
  load-Landed a raw w u m e l h =
      lookup-decode_all codec a.command_id raw a l.next.entries m (inverse.decode_encode a raw e)
        l.is_written.own (rw (l.is_found, load) at h)

  -- When Record reports success, the ack was encoded, and Record's last attempt read the ConfigMap and
  -- updated it under the version that it read; before, it only created the ConfigMap where none was
  -- found, or had updates refused for a conflict. The ConfigMap then holds the encoded ack under its
  -- command id, in at most `max_journal_entries` entries under distinct keys. Every other key has what
  -- the last attempt read under it, or nothing; and nothing is dropped that was read, if there is room.
  pub save-Landed :
      (a : CommandAck) (w : W)
      → (save api codec a w).0 ≡ none
      → (raw : Str) × (codec.encode a ≡ ok raw)
        × Landed api a.command_id raw w (save api codec a w).1
  unfolding save
  save-Landed a w h = elim (Outcome-cases (codec.encode a)) [
    | inl (x, q) ↦ cc (rw (q, save) at h)
    | inr (raw, q) ↦ (
      raw,
      q,
      rw (q, save) (save_attempts-Lands api store a.command_id raw w 3 w start (rw (q, save) at h)),
    )
  ]

  -- The ConfigMap journal is durable: a Load that succeeds right after a successful Record reads the
  -- ack back under its command id.
  pub config_map_journal-IsDurable : IsDurable (config_map_journal api codec)
  unfolding config_map_journal
  config_map_journal-IsDurable = record {
    reads_back = λ a w m s l.
        let (raw, e, landed) = save-Landed a w s in
        load-Landed a raw w (save api codec a w).1 m e landed l;
  }
