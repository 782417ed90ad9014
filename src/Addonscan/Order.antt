-- ===== src/Addonscan/Order.antt =====
-- internal/addonscan/scanner.go: the order of a report, whatever the order in which Go ranges over the
-- snapshot.
use inari_agent.Prelude.{
  Str, true, false, Bool-cases, Map, List, [], ◌∷◌, ◌≡◌, inl, inr, refl, sym, ap, ◌∙◌, str_eq,
  str_eq_iff, str_less,
}
use inari_agent.Capability.Checksum.Order.{str_less_irrefl, str_less_trans, str_less_total}
use inari_agent.Addonscan.{Addon, Tracked, insert_addon, sorted_addons}

-- Ranging over a snapshot in another order: entries change places, but never two of the same catalog item.
pub data Reordered : Map Tracked → Map Tracked → Type 0 where
  as_before : {m : Map Tracked} → Reordered m m
  behind :
      {m n : Map Tracked} (k : Str) (t : Tracked)
      → Reordered m n
      → Reordered ((k, t) ∷ m) ((k, t) ∷ n)
  swapped :
      {m : Map Tracked} (j k : Str) (s t : Tracked)
      → str_eq s.addon.catalog_item t.addon.catalog_item ≡ false
      → Reordered ((j, s) ∷ (k, t) ∷ m) ((k, t) ∷ (j, s) ∷ m)
  followed : {l m n : Map Tracked} → Reordered l m → Reordered m n → Reordered l n

goes_behind :
    (a c : Addon) (l : List Addon)
    → str_less c.catalog_item a.catalog_item ≡ true
    → insert_addon a (c ∷ l) ≡ c ∷ insert_addon a l
unfolding insert_addon
goes_behind a c l h = rw h refl

goes_in_front :
    (a c : Addon) (l : List Addon)
    → str_less c.catalog_item a.catalog_item ≡ false
    → insert_addon a (c ∷ l) ≡ a ∷ c ∷ l
unfolding insert_addon
goes_in_front a c l h = rw h refl

-- Two insertions of different items may change places; here the first item is the lesser one.
insert_addon_comm_less :
    (a b : Addon) (l : List Addon)
    → str_less a.catalog_item b.catalog_item ≡ true
    → str_less b.catalog_item a.catalog_item ≡ false
    → insert_addon a (insert_addon b l) ≡ insert_addon b (insert_addon a l)
insert_addon_comm_less a b [] h n = unfold insert_addon in rw (h, n) refl
insert_addon_comm_less a b (c ∷ l) h n =
    elim (Bool-cases (str_less c.catalog_item a.catalog_item)) [
      | inl t ↦
          let u = str_less_trans c.catalog_item a.catalog_item b.catalog_item t h in
          ap (insert_addon a) (goes_behind b c l u)
          ∙ goes_behind a c (insert_addon b l) t
          ∙ ap (λ r. c ∷ r) (insert_addon_comm_less a b l h n)
          ∙ sym (goes_behind b c (insert_addon a l) u)
          ∙ ap (insert_addon b) (sym (goes_behind a c l t))
      | inr x ↦
          let last =
            sym (goes_behind b a (c ∷ l) h) ∙ ap (insert_addon b) (sym (goes_in_front a c l x)) in
          elim (Bool-cases (str_less c.catalog_item b.catalog_item)) [
            | inl u ↦
                ap (insert_addon a) (goes_behind b c l u)
                ∙ goes_in_front a c (insert_addon b l) x
                ∙ ap (λ r. a ∷ r) (sym (goes_behind b c l u))
                ∙ last
            | inr y ↦
                ap (insert_addon a) (goes_in_front b c l y)
                ∙ goes_in_front a b (c ∷ l) n
                ∙ ap (λ r. a ∷ r) (sym (goes_in_front b c l y))
                ∙ last
          ]
    ]

lesser : (a b : Str) → str_less a b ≡ true → str_less b a ≡ false
lesser a b h = elim (Bool-cases (str_less b a)) [
  | inr n ↦ n
  | inl t ↦ cc (str_less_trans a b a h t, str_less_irrefl a)
]

insert_addon_comm :
    (a b : Addon) (l : List Addon)
    → str_eq a.catalog_item b.catalog_item ≡ false
    → insert_addon a (insert_addon b l) ≡ insert_addon b (insert_addon a l)
insert_addon_comm a b l d = elim (Bool-cases (str_less a.catalog_item b.catalog_item)) [
  | inl h ↦ insert_addon_comm_less a b l h (lesser _ _ h)
  | inr n ↦ elim (Bool-cases (str_less b.catalog_item a.catalog_item)) [
    | inl h ↦ sym (insert_addon_comm_less b a l h n)
    | inr m ↦ cc ((str_eq_iff a.catalog_item b.catalog_item).1 (str_less_total _ _ n m), d)
  ]
]

-- The order of a report does not depend on that of the snapshot.
pub sorted_addons-Reordered :
    (m n : Map Tracked) → Reordered m n → sorted_addons m ≡ sorted_addons n
unfolding sorted_addons
sorted_addons-Reordered m n as_before = refl
sorted_addons-Reordered m n (behind k t r) =
    ap (insert_addon t.addon) (sorted_addons-Reordered _ _ r)
sorted_addons-Reordered m n (swapped j k s t d) = insert_addon_comm s.addon t.addon _ d
sorted_addons-Reordered m n (followed r q) =
    sorted_addons-Reordered _ _ r ∙ sorted_addons-Reordered _ _ q
