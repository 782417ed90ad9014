-- ===== src/Status/Watches/Filtered.antt =====
-- internal/status/streamer.go: the cache of filteredWatches is transparent.
use inari_agent.Prelude.{
  Str, Bool, if◌then◌else◌, Bool-cases, Option-cases, some-injective, none, some, Map, lookup,
  insert, lookup-insert, List, [], ◌∷◌, ◌≡◌, inl, inr, refl, sym, ap, ◌∙◌, str_eq, str_eq_sound,
}
use inari_agent.Status.Watches.{WatchResource, gvr_key, filter_from, filtered_watches}

-- The watches whose API is served, in order.
abbrev pub served_only : (Str → Bool) → List WatchResource → List WatchResource
served_only served [] = []
served_only served (w ∷ ws) =
    let rest = served_only served ws in if served (gvr_key w) then w ∷ rest else rest

-- The cache holds what discovery says.
record IsCache (served : Str → Bool) (checked : Map Bool) : Type 0 where
  entry : (k : Str) (b : Bool) → lookup k checked ≡ some b → b ≡ served k

module _ (served : Str → Bool) where
  insert-IsCache :
      (k : Str) (checked : Map Bool)
      → IsCache served checked
      → IsCache served (insert k (served k) checked)
  insert-IsCache k checked c = record {
    entry = λ j b e. elim (Bool-cases (str_eq k j)) [
      | inl t ↦
          let known : served k ≡ b = some-injective (rw (lookup-insert, t) at e) in
          sym known ∙ ap served (str_eq_sound k j t)
      | inr n ↦ c.entry j b (rw (lookup-insert, n) at e)
    ];
  }

  filter_from-served_only :
      (checked : Map Bool) (ws : List WatchResource)
      → IsCache served checked
      → filter_from served checked ws ≡ served_only served ws
  unfolding filter_from
  filter_from-served_only checked [] c = refl
  filter_from-served_only checked (w ∷ ws) c = elim (Option-cases (lookup (gvr_key w) checked)) [
    | inl q ↦
        rw (q, filter_from)
          (rw (
            filter_from-served_only (insert (gvr_key w) (served (gvr_key w)) checked) ws
              (insert-IsCache (gvr_key w) checked c)))
    | inr (b, q) ↦
        rw (q, filter_from)
          (rw (c.entry (gvr_key w) b q) (
            rw (
              filter_from-served_only (insert (gvr_key w) (served (gvr_key w)) checked) ws
                (insert-IsCache (gvr_key w) checked c))))
  ]

-- With discovery, the watches that remain are exactly those whose API is served, in their order and
-- with their repetitions: the cache changes nothing. Without discovery all remain.
pub filtered_watches_lem :
    (served : Str → Bool) (ws : List WatchResource)
    → (filtered_watches (some served) ws ≡ served_only served ws) × (filtered_watches none ws ≡ ws)
unfolding filtered_watches
filtered_watches_lem served ws =
    (filter_from-served_only served [] ws (record { entry = λ k b e. unfold lookup in cc }), refl)
