-- ===== src/Scenarios/Capabilities.antt =====
-- internal/capability: the theorems at a small snapshot, replay and image.
use inari_agent.Prelude.{
  ℕ, zero, suc, Str, String, codes, Bool, true, false, Option, none, some, lookup, insert, Map,
  str_eq, str_eq_iff, List, [], ◌∷◌, ◌++◌, concat, All, ◌≡◌, refl, arith,
}
use inari_agent.Capability.Chunks.{split_by_byte_budget}
use inari_agent.Capability.Chunks.Budget.{IsChunk, split_partitions}
use inari_agent.Capability.Snapshot.{
  Capability, Snapshot, capability_key, apply_delete, apply_all, empty_snapshot,
}
use inari_agent.Capability.Snapshot.Upsert.{latest, snapshot_is_latest}
use inari_agent.Capability.Snapshot.Deletion.{groupless_delete_removes_group}
use inari_agent.Capability.Checksum.{checksum_digests, state_checksum}
use inari_agent.Capability.Checksum.Incremental.{values, incremental_checksum}
use inari_agent.Capability.Replay.{Update, replay_full_state}
use inari_agent.Capability.Replay.Terminal.{
  IsSender, updates, terminal, Abandoned, replay_complete, replay-Abandoned,
}
use inari_agent.Capability.Image.{split_image, colon}
use inari_agent.Capability.Image.Tags.{split_image_complete}

split_partitions_example :
    (concat (split_by_byte_budget (λ (n : ℕ). n) (4 ∷ 5 ∷ 20 ∷ []) 10) ≡ 4 ∷ 5 ∷ 20 ∷ [])
    × All (IsChunk (λ (n : ℕ). n) 10) (split_by_byte_budget (λ (n : ℕ). n) (4 ∷ 5 ∷ 20 ∷ []) 10)
split_partitions_example = split_partitions (λ (n : ℕ). n) (4 ∷ 5 ∷ 20 ∷ []) 10

abbrev capability_of : String → String → Bool → Capability ℕ
capability_of group name is_delete = record {
  kind = codes "CRD";
  group = codes group;
  name = codes name;
  version = codes "v1";
  is_delete = is_delete;
  body = 0;
}

abbrev events : List (Capability ℕ)
events =
    capability_of "a.io" "x" false
    ∷ capability_of "a.io" "y" false
    ∷ capability_of "a.io" "x" true
    ∷ []

abbrev name_digest : Capability ℕ → Str
name_digest c = c.name

abbrev two_events : List (Capability ℕ)
two_events = capability_of "a.io" "x" false ∷ capability_of "a.io" "y" false ∷ []

-- Two entries may be ranged over the other way round.
swapped :
    {V : Type 0} (j k i : Str) (v w : V)
    → str_eq j k ≡ false
    → lookup i ((k, w) ∷ (j, v) ∷ []) ≡ lookup i ((j, v) ∷ (k, w) ∷ [])
unfolding lookup
swapped j k i v w h = ground (arith, str_eq_iff j k, str_eq_iff j i, str_eq_iff k i, h)

abbrev digests_back : Map Str
digests_back = (codes "CRD/a.io/y/v1", codes "y") ∷ (codes "CRD/a.io/x/v1", codes "x") ∷ []

abbrev snapshot_back : Map (Capability ℕ)
snapshot_back =
    (codes "CRD/a.io/y/v1", capability_of "a.io" "y" false)
    ∷ (codes "CRD/a.io/x/v1", capability_of "a.io" "x" false)
    ∷ []

incremental_checksum_example :
    checksum_digests (λ b. b) digests_back
    ≡ state_checksum (λ b. b) (λ c. some (name_digest c)) (values snapshot_back)
unfolding lookup str_eq apply_all capability_key insert
incremental_checksum_example =
    incremental_checksum (λ c. some (name_digest c)) (λ b. b) name_digest (λ c. refl) two_events
      digests_back snapshot_back
      ((refl, (refl, tt)), λ i. swapped (codes "CRD/a.io/x/v1") (codes "CRD/a.io/y/v1") i _ _ refl)
      ((refl, (refl, tt)), λ i. swapped (codes "CRD/a.io/x/v1") (codes "CRD/a.io/y/v1") i _ _ refl)

snapshot_is_latest_example :
    lookup
      (codes "CRD/a.io/x/v1")
      (apply_all (λ c. some (name_digest c)) events empty_snapshot).snapshot
    ≡ latest (codes "CRD/a.io/x/v1") events none
snapshot_is_latest_example =
    snapshot_is_latest (λ c. some (name_digest c)) events (codes "CRD/a.io/x/v1")
      (refl, (refl, (refl, tt)))

abbrev stored : Snapshot ℕ
stored = apply_all (λ c. some (name_digest c)) (capability_of "a.io" "x" false ∷ []) empty_snapshot

groupless_delete_removes_group_example :
    lookup
      (capability_key (capability_of "a.io" "x" false))
      (apply_delete (capability_of "" "a.io" true) stored).snapshot
    ≡ none
groupless_delete_removes_group_example =
    groupless_delete_removes_group (capability_of "" "a.io" true) (capability_of "a.io" "x" false)
      stored refl refl refl

-- A client that fails after some updates.
abbrev Line : Type 0
Line = ℕ × List (Update ℕ)

abbrev transmit : Update ℕ → Line → Option Str × Line
transmit u (zero, l) = (some (codes "down"), (zero, l))
transmit u (suc n, l) = (none, (n, l ++ (u ∷ [])))

abbrev sent_on : Line → List (Update ℕ)
sent_on (n, l) = l

transmit_delivers :
    (u : Update ℕ) (w : Line)
    → (transmit u w).0 ≡ none
    → sent_on (transmit u w).1 ≡ sent_on w ++ (u ∷ [])
transmit_delivers u (zero, l) h = cc
transmit_delivers u (suc n, l) h = refl

transmit_fails :
    (u : Update ℕ) (w : Line) (e : Str)
    → (transmit u w).0 ≡ some e
    → sent_on (transmit u w).1 ≡ sent_on w
transmit_fails u (zero, l) e h = refl
transmit_fails u (suc n, l) e h = cc

transmit-IsSender : IsSender transmit sent_on
transmit-IsSender = record { delivers = transmit_delivers; fails = transmit_fails }

replay_complete_example :
    sent_on (replay_full_state transmit (λ n. n) 10 (codes "sum") (4 ∷ 5 ∷ 20 ∷ []) (9, [])).1
    ≡ []
      ++ (updates (codes "sum") (split_by_byte_budget (λ n. n) (4 ∷ 5 ∷ 20 ∷ []) 10)
          ++ (terminal (codes "sum") ∷ []))
unfolding replay_full_state split_by_byte_budget
replay_complete_example =
    replay_complete transmit sent_on transmit-IsSender (codes "sum") (λ n. n) 10 (4 ∷ 5 ∷ 20 ∷ [])
      (9, []) refl

replay-Abandoned_example :
    Abandoned
      (codes "sum")
      (split_by_byte_budget (λ n. n) (4 ∷ 5 ∷ 20 ∷ []) 10)
      []
      (sent_on (replay_full_state transmit (λ n. n) 10 (codes "sum") (4 ∷ 5 ∷ 20 ∷ []) (1, [])).1)
unfolding replay_full_state split_by_byte_budget
replay-Abandoned_example =
    replay-Abandoned transmit sent_on transmit-IsSender (codes "sum") (λ n. n) 10 (4 ∷ 5 ∷ 20 ∷ [])
      (1, []) (codes "down") refl

split_image_complete_example :
    split_image (codes "reg:5000/app" ++ (colon ∷ codes "v1"))
    ≡ some (codes "reg:5000/app", codes "v1")
split_image_complete_example =
    split_image_complete (codes "reg:5000/app") (codes "v1")
      (
        (λ e. absurd (omega arith)),
        (λ e. absurd (omega arith)),
        (λ e. absurd (omega arith)),
        ((λ e. absurd (omega arith)), (λ e. absurd (omega arith)), (λ e. absurd (omega arith)), tt),
      )
      refl
