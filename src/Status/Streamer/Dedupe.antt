-- ===== src/Status/Streamer/Dedupe.antt =====
-- internal/status/streamer.go: what the dedupe entries suppress, and what they do not.
use inari_agent.Prelude.{
  Str, Bool, false, none, Map, lookup, lookup-delete, [], ◌∷◌, ◌≡◌, refl, arith, str_eq,
  str_eq_refl, is_empty,
}
use inari_agent.Status.Streamer.{
  StatusUpdate, Meta, kind_for, dedupe_key, last_sum, emit, emit_delete, reset,
}

module _ {W : Type 0} (checksum : StatusUpdate → Str) (sender : StatusUpdate → W → Bool × W) where
  emit_world :
      (key : Str) (upd : StatusUpdate) (sums : Map Str) (w : W)
      → str_eq (last_sum checksum sender key sums) (checksum upd) ≡ false
      → (emit checksum sender key upd sums w).1 ≡ (sender upd w).1
  unfolding emit
  emit_world key upd sums w n = rw n (ground arith)

  emit_failed :
      (key : Str) (upd : StatusUpdate) (sums : Map Str) (w : W)
      → (sender upd w).0 ≡ false
      → (emit checksum sender key upd sums w).0 ≡ sums
  unfolding emit
  emit_failed key upd sums w s = ground arith

  last_sum_missing :
      (key : Str) (sums : Map Str) → lookup key sums ≡ none → last_sum checksum sender key sums ≡ []
  unfolding last_sum
  last_sum_missing key sums h = ground arith

  -- After a failed delivery the entries are what they were, and the next event for the object makes
  -- another attempt: it sends the update again.
  pub emit_retries :
      (key : Str) (upd : StatusUpdate) (sums : Map Str) (w v : W)
      → str_eq (last_sum checksum sender key sums) (checksum upd) ≡ false
      → (sender upd w).0 ≡ false
      → let s = emit checksum sender key upd sums w in
        (s.0 ≡ sums) × ((emit checksum sender key upd s.0 v).1 ≡ (sender upd v).1)
  emit_retries key upd sums w v n s =
      let same = emit_failed key upd sums w s in (same, rw same (emit_world key upd sums v n))

  missing_sends :
      (key : Str) (upd : StatusUpdate) (sums : Map Str) (v : W)
      → is_empty (checksum upd) ≡ false
      → lookup key sums ≡ none
      → (emit checksum sender key upd sums v).1 ≡ (sender upd v).1
  missing_sends key upd sums v n h =
      emit_world key upd sums v (rw (last_sum_missing key sums h) (differs (checksum upd) n))
    where
      differs : (s : Str) → is_empty s ≡ false → str_eq [] s ≡ false
      differs [] e = cc
      differs (c ∷ s) e = unfold str_eq in refl

  -- A deletion forgets its object: the next update for its key is sent, whatever was sent before, if
  -- the update's hash is not empty. So too after a reset, for every key.
  pub forgotten_sends :
      (u : Meta) (qualify : Bool) (upd : StatusUpdate) (sums : Map Str) (w v : W) (k : Str)
      → is_empty (checksum upd) ≡ false
      → let key = dedupe_key (kind_for u qualify) u in
        ((emit checksum sender key upd (emit_delete checksum sender u qualify sums w).0 v).1
          ≡ (sender upd v).1)
        × ((emit checksum sender k upd (reset checksum sender sums) v).1 ≡ (sender upd v).1)
  forgotten_sends u qualify upd sums w v k n =
      let key = dedupe_key (kind_for u qualify) u in
      (
        missing_sends key upd (emit_delete checksum sender u qualify sums w).0 v n
            (unfold emit_delete in rw (lookup-delete, str_eq_refl key)),
        missing_sends k upd (reset checksum sender sums) v n (unfold reset lookup in refl),
      )
