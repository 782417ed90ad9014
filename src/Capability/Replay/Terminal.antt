-- ===== src/Capability/Replay/Terminal.antt =====
-- internal/capability/aggregate.go: what a replay puts on the stream, and that only a complete one
-- sends the terminal chunk.
use mathlib.Core.List.{append_assoc, append-nil}
use inari_agent.Prelude.{
  ℕ, Str, true, Option-cases, Option, none, some, List, [], ◌∷◌, ◌++◌, ◌≡◌, inl, inr, refl, sym, ap,
  ◌∙◌,
}
use inari_agent.Capability.Chunks.{split_by_byte_budget}
use inari_agent.Capability.Replay.{Update, send_chunks, replay_full_state}

-- A client that delivers an update or reports an error and delivers nothing.
pub record IsSender {A W : Type 0} (client : Update A → W → Option Str × W)
    (sent : W → List (Update A)) : Type 0 where
  pub delivers :
      (u : Update A) (w : W) → (client u w).0 ≡ none → sent (client u w).1 ≡ sent w ++ (u ∷ [])
  pub fails :
      (u : Update A) (w : W) (e : Str) → (client u w).0 ≡ some e → sent (client u w).1 ≡ sent w

-- The updates of some chunks.
abbrev pub updates : {A : Type 0} → Str → List (List A) → List (Update A)
updates checksum [] = []
updates checksum (chunk ∷ chunks) =
    record { full_sync = true; capabilities = chunk; state_checksum = checksum }
    ∷ updates checksum chunks

-- The terminal chunk: an empty full sync.
abbrev pub terminal : {A : Type 0} → Str → Update A
terminal checksum = record { full_sync = true; capabilities = []; state_checksum = checksum }

-- What was sent before an error: the updates of a first part of the chunks.
pub record Abandoned {A : Type 0} (checksum : Str) (chunks : List (List A))
    (before after : List (Update A)) : Type 0 where
  pub done : List (List A)
  pub left : List (List A)
  pub parts : done ++ left ≡ chunks
  pub sent_done : after ≡ before ++ updates checksum done

module _ {A W : Type 0} (client : Update A → W → Option Str × W) (sent : W → List (Update A))
    (sender : IsSender client sent) (checksum : Str) where
  chunks_sent :
      (chunks : List (List A)) (w : W)
      → (send_chunks client chunks true checksum w).0 ≡ none
      → sent (send_chunks client chunks true checksum w).1 ≡ sent w ++ updates checksum chunks
  unfolding send_chunks
  chunks_sent [] w h = sym (append-nil (sent w))
  chunks_sent (chunk ∷ chunks) w h =
      elim (Option-cases
        (client (record { full_sync = true; capabilities = chunk; state_checksum = checksum })
          w).0) [
            | inr (e, q) ↦ cc (rw (q, send_chunks) at h)
            | inl q ↦
                rw (q, send_chunks)
                  (chunks_sent chunks _ (rw (q, send_chunks) at h)
                    ∙ ap (λ (l : List (Update A)). l ++ updates checksum chunks)
                        (sender.delivers _ w q)
                    ∙ append_assoc (sent w) _ _)
          ]

  chunks-Abandoned :
      (chunks : List (List A)) (w : W) (e : Str)
      → (send_chunks client chunks true checksum w).0 ≡ some e
      → Abandoned checksum chunks (sent w) (sent (send_chunks client chunks true checksum w).1)
  unfolding send_chunks
  chunks-Abandoned [] w e h = cc
  chunks-Abandoned (chunk ∷ chunks) w e h =
      elim (Option-cases
        (client (record { full_sync = true; capabilities = chunk; state_checksum = checksum })
          w).0) [
            | inr (x, q) ↦ record {
              done = [];
              left = chunk ∷ chunks;
              parts = refl;
              sent_done = rw (q, send_chunks) (sender.fails _ w x q ∙ sym (append-nil (sent w)));
            }
            | inl q ↦
                let rest = chunks-Abandoned chunks _ e (rw (q, send_chunks) at h) in
                record {
                  done = chunk ∷ rest.done;
                  left = rest.left;
                  parts = ap (λ (l : List (List A)). chunk ∷ l) rest.parts;
                  sent_done =
                      rw (q, send_chunks)
                        (rest.sent_done
                          ∙ ap (λ (l : List (Update A)). l ++ updates checksum rest.done)
                              (sender.delivers _ w q)
                          ∙ append_assoc (sent w) _ _);
                }
          ]

  -- A replay that reports success has sent, after what was sent before, every chunk of the snapshot
  -- in order and then the empty terminal chunk, all as full syncs under one checksum.
  pub replay_complete :
      (size : A → ℕ) (max_bytes : ℕ) (caps : List A) (w : W)
      → (replay_full_state client size max_bytes checksum caps w).0 ≡ none
      → sent (replay_full_state client size max_bytes checksum caps w).1
        ≡ sent w
          ++ (updates checksum (split_by_byte_budget size caps max_bytes)
              ++ (terminal checksum ∷ []))
  unfolding replay_full_state
  replay_complete size max_bytes caps w h =
      let chunks = split_by_byte_budget size caps max_bytes in
      elim (Option-cases (send_chunks client chunks true checksum w).0) [
        | inr (e, q) ↦ cc (rw (q, replay_full_state) at h)
        | inl q ↦
            rw (q, replay_full_state)
              (sender.delivers _ _ (rw (q, replay_full_state) at h)
                ∙ ap (λ (l : List (Update A)). l ++ (terminal checksum ∷ []))
                    (chunks_sent chunks w q)
                ∙ append_assoc (sent w) _ _)
      ]

  -- A replay that reports an error has sent the chunks of a first part of the snapshot's chunks, in
  -- order, and no terminal chunk after them.
  pub replay-Abandoned :
      (size : A → ℕ) (max_bytes : ℕ) (caps : List A) (w : W) (e : Str)
      → (replay_full_state client size max_bytes checksum caps w).0 ≡ some e
      → Abandoned checksum
          (split_by_byte_budget size caps max_bytes)
          (sent w)
          (sent (replay_full_state client size max_bytes checksum caps w).1)
  unfolding replay_full_state
  replay-Abandoned size max_bytes caps w e h =
      let chunks = split_by_byte_budget size caps max_bytes in
      elim (Option-cases (send_chunks client chunks true checksum w).0) [
        | inr (x, q) ↦ rw (q, replay_full_state) (chunks-Abandoned chunks w x q)
        | inl q ↦
            rw (q, replay_full_state)
              (record {
                done = chunks;
                left = [];
                parts = append-nil chunks;
                sent_done =
                    sender.fails _ _ e (rw (q, replay_full_state) at h) ∙ chunks_sent chunks w q;
              })
      ]
