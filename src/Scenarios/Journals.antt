-- ===== src/Scenarios/Journals.antt =====
-- internal/command/journal.go: a ConfigMap on a small cluster, and a restart of the agent.
use inari_agent.Prelude.{
  ℕ, zero, suc, ◌+◌, Str, codes, Bool, true, false, ◌&&◌, if◌then◌else◌, Bool-cases, Option-cases,
  ok-injective, Option, none, some, Outcome, ok, err, Map, lookup, insert, delete, [], ◌∷◌, ◌++◌,
  length, ◌≡◌, inl, inr, refl, sym, ap, ◌∙◌, arith, str_eq, ◌==◌, IsMap,
}
use inari_agent.Wire.{
  CommandAck, CommandResult, apply_bundle, applied, unspecified, accepted, failed, same_type,
}
use inari_agent.Command.Identity.{command_id_of}
use inari_agent.Command.Dispatcher.{
  KindHandler, Dispatcher, Journal, handle_event, new_dispatcher, register, attach_journal,
}
use inari_agent.Command.Dispatcher.Durable.{IsDurable, restart_replays}
use inari_agent.Command.Journal.{
  ConfigMap, GetReply, found, not_found, get_failed, WriteReply, written, already_exists, conflict,
  write_failed, ConfigMapApi, AckCodec, save, config_map_journal, with_entry,
}
use inari_agent.Command.Journal.Saved.{
  IsStore, IsInverse, Landed, save-Landed, config_map_journal-IsDurable,
}
use inari_agent.Scenarios.Commands.{decoder, apply_event, done_ack}

-- One ConfigMap, with a test on reading and writing that its keys are distinct.
abbrev pub is_distinct : Map Str → Bool
is_distinct [] = true
is_distinct ((k, v) ∷ m) = elim (lookup k m) [ none ↦ is_distinct m | some w ↦ false ]

abbrev pub Cluster : Type 0
Cluster = Option ConfigMap

abbrev pub read_map : Cluster → GetReply
read_map none = not_found
read_map (some cm) = if is_distinct cm.entries then found cm else get_failed (codes "corrupt")

abbrev pub write_map : ConfigMap → Cluster → WriteReply × Cluster
write_map cm none = (write_failed (codes "gone"), none)
write_map cm (some old) =
    if cm.version == old.version && is_distinct cm.entries
    then (written, some (record { version = old.version + 1; entries = cm.entries }))
    else (conflict, some old)

abbrev pub create_map : Map Str → Cluster → WriteReply × Cluster
create_map m none = (written, some (record { version = 1; entries = m }))
create_map m (some old) = (already_exists, some old)

abbrev pub cluster_api : ConfigMapApi Cluster
cluster_api = record { get = λ w. (read_map w, w); create = create_map; update = write_map }

is_distinct_sound : (m : Map Str) → is_distinct m ≡ true → IsMap m
is_distinct_sound [] h = tt
is_distinct_sound ((k, v) ∷ m) h = elim (Option-cases (lookup k m)) [
  | inl e ↦ (e, is_distinct_sound m (rw (e, is_distinct) at h))
  | inr (x, e) ↦ cc (rw (e, is_distinct) at h)
]

both : (a b : Bool) → a && b ≡ true → b ≡ true
both a b h = ground arith

write_map_read :
    (cm : ConfigMap) (w : Cluster)
    → (write_map cm w).0 ≡ written
    → (n : ℕ) × (read_map (write_map cm w).1 ≡ found (record { version = n; entries = cm.entries }))
write_map_read cm none h = cc
write_map_read cm (some old) h =
    elim (Bool-cases (cm.version == old.version && is_distinct cm.entries)) [
      | inl t ↦ (
        old.version + 1,
        rw t (rw (both (cm.version == old.version) (is_distinct cm.entries) t) refl),
      )
      | inr n ↦ cc (rw n at h)
    ]

found_injective : (a b : ConfigMap) → found a ≡ found b → a ≡ b
found_injective a b h = cc

read_map_distinct : (w : Cluster) (cm : ConfigMap) → read_map w ≡ found cm → IsMap cm.entries
read_map_distinct none cm h = cc
read_map_distinct (some old) cm h = elim (Bool-cases (is_distinct old.entries)) [
  | inl t ↦ rw (← found_injective old cm (rw t at h)) (is_distinct_sound old.entries t)
  | inr n ↦ cc (rw n at h)
]

pub cluster_api-IsStore : IsStore cluster_api
cluster_api-IsStore = record { read_update = write_map_read; read_distinct = read_map_distinct }

-- Acks as a code of the result, the length of the command id, the id and the message.
abbrev result_code : CommandResult → ℕ
result_code unspecified = 0
result_code accepted = 1
result_code applied = 2
result_code failed = 3

abbrev result_of : ℕ → CommandResult
result_of zero = unspecified
result_of (suc zero) = accepted
result_of (suc (suc zero)) = applied
result_of _ = failed

result_of-result_code : (r : CommandResult) → result_of (result_code r) ≡ r
result_of-result_code unspecified = refl
result_of-result_code accepted = refl
result_of-result_code applied = refl
result_of-result_code failed = refl

abbrev parted : ℕ → Str → Str × Str
parted zero s = ([], s)
parted (suc n) [] = ([], [])
parted (suc n) (c ∷ s) = (c ∷ (parted n s).0, (parted n s).1)

parted-append : (s t : Str) → parted (length s) (s ++ t) ≡ (s, t)
parted-append [] t = refl
parted-append (c ∷ s) t = ap (λ (p : Str × Str). (c ∷ p.0, p.1)) (parted-append s t)

abbrev encode_ack : CommandAck → Outcome Str Str
encode_ack a = ok (result_code a.result ∷ length a.command_id ∷ (a.command_id ++ a.message))

abbrev decode_ack : Str → Outcome Str CommandAck
decode_ack (r ∷ n ∷ s) =
    ok (record { command_id = (parted n s).0; result = result_of r; message = (parted n s).1 })
decode_ack _ = err (codes "bad ack")

decode_ack-encode_ack : (a : CommandAck) (raw : Str) → encode_ack a ≡ ok raw → decode_ack raw ≡ ok a
decode_ack-encode_ack a raw e =
    ap decode_ack (sym (ok-injective e))
    ∙ rw (parted-append a.command_id a.message, result_of-result_code a.result) refl

abbrev codec : AckCodec
codec = record { encode = encode_ack; decode = decode_ack }

codec-IsInverse : IsInverse codec
codec-IsInverse = record { decode_encode = decode_ack-encode_ack }

config_map_journal-IsDurable_example : IsDurable (config_map_journal cluster_api codec)
config_map_journal-IsDurable_example =
    config_map_journal-IsDurable cluster_api codec cluster_api-IsStore codec-IsInverse

save-Landed_example :
    (raw : Str) × (encode_ack done_ack ≡ ok raw)
    × Landed cluster_api (codes "c1") raw none (save cluster_api codec done_ack none).1
unfolding save with_entry lookup insert delete str_eq
save-Landed_example =
    save-Landed cluster_api codec cluster_api-IsStore codec-IsInverse done_ack none refl

abbrev journal : Journal Cluster
journal = config_map_journal cluster_api codec

abbrev applying : KindHandler Str Cluster
applying ev w = (ok (applied, codes "done"), w)

abbrev running : Dispatcher Str Cluster
running = (attach_journal journal (register apply_bundle applying new_dispatcher) none).1

restart_replays_example :
    let s =
      attach_journal journal new_dispatcher
        (handle_event decoder (some apply_event) running none).2 in
    handle_event decoder (some apply_event) s.1 s.2 ≡ (ok done_ack, s.1, s.2)
unfolding handle_event command_id_of register new_dispatcher lookup str_eq same_type attach_journal
    config_map_journal with_entry insert delete
restart_replays_example =
    restart_replays decoder journal
      (config_map_journal-IsDurable cluster_api codec cluster_api-IsStore codec-IsInverse)
      apply_event apply_event (codes "c1") (codes "c1") (codes "c1") done_ack running new_dispatcher
      none refl refl refl refl refl refl refl refl refl
