-- ===== src/Status/Health/Agreement.antt =====
-- internal/status/streamer.go: health and sync of resources that carry conditions only.
use inari_agent.Prelude.{
  codes, if◌then◌else◌, Option-cases, Option, none, some, List, ◌≡◌, inl, inr, ◌↔◌, arith, str_eq,
}
use inari_agent.Status.Streamer.{healthy, synced, out_of_sync}
use inari_agent.Status.Health.{
  Condition, ObjectStatus, find_ready, ready_health, conditions_health, conditions_sync, health_of,
  sync_of,
}

ready_agree :
    (c : Condition)
    → ((ready_health c).0 ≡ healthy)
      ↔ ((if str_eq c.status (codes "True") then synced else out_of_sync) ≡ synced)
unfolding ready_health
ready_agree c = (ground arith, ground arith)

conditions_agree_lem :
    (o : Option (List Condition))
    → ((conditions_health o).0 ≡ healthy) ↔ (conditions_sync o ≡ synced)
unfolding conditions_health conditions_sync
conditions_agree_lem none = (λ e. cc, λ e. cc)
conditions_agree_lem (some cs) = elim (Option-cases (find_ready cs)) [
  | inl q ↦ rw (q, conditions_health, conditions_sync) (λ e. cc, λ e. cc)
  | inr (c, q) ↦ rw (q, conditions_health, conditions_sync) (ready_agree c)
]

-- A resource without an ArgoCD health and sync status, judged by its conditions, is reported healthy
-- exactly when it is reported synced.
pub conditions_agree :
    (u : ObjectStatus)
    → u.health_status ≡ none
    → u.sync_status ≡ none
    → ((health_of u).0 ≡ healthy) ↔ ((sync_of u).0 ≡ synced)
unfolding health_of sync_of
conditions_agree u h s = rw (h, s) (conditions_agree_lem u.conditions)
