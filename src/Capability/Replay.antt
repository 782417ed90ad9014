-- ===== src/Capability/Replay.antt =====
-- internal/capability/aggregate.go: send, sendChunk and ReplayFullState. The stream client's Send is
-- a parameter on the world `W`; an error of marshalling an update counts as an error of it.
pub mod Terminal
use inari_agent.Prelude.{
  ℕ, Str, Bool, true, not, ◌&&◌, ◌||◌, if◌then◌else◌, Option, none, some, List, [], ◌∷◌,
}
use inari_agent.Capability.Chunks.{is_nil, split_by_byte_budget}

-- agentv1.CapabilityUpdate
pub record Update (A : Type 0) : Type 0 where
  pub full_sync : Bool
  pub capabilities : List A
  pub state_checksum : Str

module _ {A W : Type 0} (client : Update A → W → Option Str × W) where
  unfoldable send_chunk : List A → Bool → Str → W → Option Str × W
  send_chunk caps full checksum w =
      client (record { full_sync = full; capabilities = caps; state_checksum = checksum }) w

  -- The loop over the chunks: the first error ends it.
  unfoldable send_chunks : List (List A) → Bool → Str → W → Option Str × W
  unfolding send_chunk
  send_chunks [] full checksum w = (none, w)
  send_chunks (chunk ∷ chunks) full checksum w =
      let (failure, w') = send_chunk chunk full checksum w in
      elim failure [ some e ↦ (some e, w') | none ↦ send_chunks chunks full checksum w' ]

  -- send; `connected` says that the aggregator has a client.
  unfoldable send : Bool → (A → ℕ) → ℕ → Str → List A → Bool → W → Option Str × W
  unfolding send_chunks
  send has_client size max_batch_bytes checksum caps full w =
      if not has_client || (is_nil caps && not full)
      then (none, w)
      else send_chunks (split_by_byte_budget size caps max_batch_bytes) full checksum w

  -- ReplayFullState over the capabilities that it read, with the checksum that it read. The two are read
  -- under separate locks, and events may be applied between them, so they are two arguments; what Run
  -- sends meanwhile is what `client` finds in the world.
  unfoldable pub replay_full_state : (A → ℕ) → ℕ → Str → List A → W → Option Str × W
  unfolding send_chunks
  replay_full_state size max_batch_bytes checksum caps w =
      let (failure, w') =
        send_chunks (split_by_byte_budget size caps max_batch_bytes) true checksum w in
      elim failure [ some e ↦ (some e, w') | none ↦ send_chunk [] true checksum w' ]
