-- ===== src/Command/Journal.antt =====
-- internal/command/journal.go: ConfigMapJournal. The Kubernetes client and encoding/json are the
-- parameters `ConfigMapApi` and `AckCodec`. The mutex makes `save` one step of the journal's user;
-- other writers of the ConfigMap act inside the world `W`.
pub mod Eviction
pub mod Saved
use inari_agent.Prelude.{
  ℕ, zero, suc, Str, codes, if◌then◌else◌, Option, none, some, Outcome, ok, err, ◌>>=◌, Map, insert,
  delete, List, [], ◌∷◌, ◌++◌, length, str_eq, leb,
}
use inari_agent.Wire.{CommandAck}
use inari_agent.Command.Dispatcher.{Journal}

pub record ConfigMap : Type 0 where
  pub version : ℕ
  pub entries : Map Str

pub data GetReply : Type 0 where
  found : ConfigMap → GetReply
  not_found : GetReply
  get_failed : Str → GetReply

pub data WriteReply : Type 0 where
  written : WriteReply
  already_exists : WriteReply
  conflict : WriteReply
  write_failed : Str → WriteReply

-- The client of the one ConfigMap that the journal names.
pub record ConfigMapApi (W : Type 0) : Type 0 where
  pub get : W → GetReply × W
  pub create : Map Str → W → WriteReply × W
  pub update : ConfigMap → W → WriteReply × W

-- json.Marshal and json.Unmarshal of an ack.
pub record AckCodec : Type 0 where
  pub encode : CommandAck → Outcome Str Str
  pub decode : Str → Outcome Str CommandAck

abbrev max_journal_entries : ℕ
max_journal_entries = 1000

unfoldable keys {ℓ} : {V : Type ℓ} → Map V → List Str
keys [] = []
keys ((k, v) ∷ m) = k ∷ keys m

-- The range loop of Record over the keys, in the order of the list. The limit is a variable.
unfoldable evict : ℕ → Str → List Str → Map Str → Map Str
evict limit own [] m = m
evict limit own (id ∷ ids) m =
    let smaller = evict limit own ids (if str_eq id own then m else delete id m) in
    if leb (length m) limit then m else smaller

-- The entry is set, then entries are evicted down to the limit.
unfoldable pub with_entry : Str → Str → Map Str → Map Str
unfolding evict keys
with_entry id raw entries = let m = insert id raw entries in evict max_journal_entries id (keys m) m

unfoldable pub write_text : WriteReply → Str
write_text written = []
write_text already_exists = codes "already exists"
write_text conflict = codes "conflict"
write_text (write_failed e) = e

module _ {W : Type 0} where
  -- What follows a Create: another attempt, also where someone else created it first.
  unfoldable after_create : (W → Option Str × W) → WriteReply → W → Option Str × W
  unfolding write_text
  after_create again written w = again w
  after_create again already_exists w = again w
  after_create again other w = (some (codes "journal: create: " ++ write_text other), w)

  -- What follows an Update: another attempt on a conflict.
  unfoldable after_update : (W → Option Str × W) → WriteReply → W → Option Str × W
  unfolding write_text
  after_update again written w = (none, w)
  after_update again conflict w = again w
  after_update again other w = (some (codes "journal: update: " ++ write_text other), w)

module _ {W : Type 0} (api : ConfigMapApi W) where
  -- What follows the Get of one attempt.
  unfoldable after_get : (W → Option Str × W) → Str → Str → GetReply → W → Option Str × W
  unfolding after_create after_update with_entry
  after_get again id raw not_found w =
      let (created, w') = api.create ((id, raw) ∷ []) w in after_create again created w'
  after_get again id raw (get_failed e) w = (some (codes "journal: get: " ++ e), w)
  after_get again id raw (found cm) w =
      let (updated, w') = api.update (record cm { entries = with_entry id raw cm.entries }) w in
      after_update again updated w'

  -- The loop of Record, over the attempts that are left.
  unfoldable save_attempts : ℕ → Str → Str → W → Option Str × W
  unfolding after_get
  save_attempts zero id raw w =
      (some (codes "journal: record " ++ (id ++ codes ": too many conflicts")), w)
  save_attempts (suc n) id raw w =
      let (reply, w') = api.get w in after_get (save_attempts n id raw) id raw reply w'

-- The loop of Load.
unfoldable decode_all : AckCodec → Map Str → Outcome Str (Map CommandAck)
decode_all codec [] = ok []
decode_all codec ((id, raw) ∷ m) =
    let rest = decode_all codec m in
    elim (codec.decode raw) [
      | err e ↦ err (codes "journal: decode ack " ++ (id ++ (codes ": " ++ e)))
      | ok ack ↦ rest >>= λ acks. ok ((id, ack) ∷ acks)
    ]

module _ {W : Type 0} (api : ConfigMapApi W) (codec : AckCodec) where
  unfoldable pub save : CommandAck → W → Option Str × W
  unfolding save_attempts
  save ack w = elim (codec.encode ack) [
    | err e ↦ (some e, w)
    | ok raw ↦ save_attempts api 3 ack.command_id raw w
  ]

  unfoldable load : W → Outcome Str (Map CommandAck) × W
  unfolding decode_all
  load w =
      let (reply, w') = api.get w in
      elim reply [
        | not_found ↦ (ok [], w')
        | get_failed e ↦ (err e, w')
        | found cm ↦ (decode_all codec cm.entries, w')
      ]

  unfoldable pub config_map_journal : Journal W
  unfolding save load
  config_map_journal = record { load = load; save = save }
