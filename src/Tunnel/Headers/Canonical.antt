-- ===== src/Tunnel/Headers/Canonical.antt =====
-- internal/tunnelagent/relay.go: no header of the hub survives beside the agent's Authorization.
use inari_agent.Prelude.{
  ℕ, ◌+◌, ◌-◌, Str, codes, Bool, true, false, ◌&&◌, if◌then◌else◌, Bool-cases, none, some, Map,
  lookup, insert, lookup-insert, List, [], ◌∷◌, ◌++◌, ◌≡◌, ◌≢◌, inl, inr, refl, sym, ap, ◌∙◌, arith,
  str_eq, str_eq_iff, str_eq_sound, ◌==◌,
}
use mathlib.Core.Path.{ap₂}
use inari_agent.Tunnel.Headers.{
  is_upper, is_lower, is_token, all_token, recase, canonicalize, canonical_key, authorization,
  copy_headers, apply_headers,
}

recase_again : (up : Bool) (c : ℕ) → recase up (recase up c) ≡ recase up c
unfolding recase
recase_again true c = ground arith
recase_again false c = ground arith

recase_hyphen : (up : Bool) (c : ℕ) → (recase up c == 45) ≡ (c == 45)
unfolding recase
recase_hyphen true c = ground arith
recase_hyphen false c = ground arith

canonicalize_again : (up : Bool) (s : Str) → canonicalize up (canonicalize up s) ≡ canonicalize up s
unfolding canonicalize
canonicalize_again up [] = refl
canonicalize_again up (c ∷ s) =
    rw (recase_hyphen up c)
      (ap₂ (λ (x : ℕ) (t : Str). x ∷ t) (recase_again up c) (canonicalize_again (c == 45) s))

upper_is_token : (c : ℕ) → is_upper c ≡ true → is_token c ≡ true
unfolding is_token
upper_is_token c h = rw h

lower_is_token : (c : ℕ) → is_lower c ≡ true → is_token c ≡ true
unfolding is_token
lower_is_token c h = ground (arith, h)

recase-is_token : (up : Bool) (c : ℕ) → is_token c ≡ true → is_token (recase up c) ≡ true
unfolding recase
recase-is_token true c h = elim (Bool-cases (is_lower c)) [
  | inl l ↦ rw l (upper_is_token (c - 32) (ground arith))
  | inr n ↦ rw n h
]
recase-is_token false c h = elim (Bool-cases (is_upper c)) [
  | inl u ↦ rw u (lower_is_token (c + 32) (ground arith))
  | inr n ↦ rw n h
]

all_token-canonicalize :
    (up : Bool) (s : Str) → all_token s ≡ true → all_token (canonicalize up s) ≡ true
unfolding all_token canonicalize
all_token-canonicalize up [] h = refl
all_token-canonicalize up (c ∷ s) h =
    and_intro _ _ (recase-is_token up c (and_left _ _ h))
      (all_token-canonicalize (c == 45) s (and_right _ _ h))
  where
    and_left : (a b : Bool) → a && b ≡ true → a ≡ true
    and_left a b h = ground arith

    and_right : (a b : Bool) → a && b ≡ true → b ≡ true
    and_right a b h = ground arith

    and_intro : (a b : Bool) → a ≡ true → b ≡ true → a && b ≡ true
    and_intro a b h k = ground arith

-- A canonical key is its own canonical key.
canonical_key_again : (k : Str) → canonical_key (canonical_key k) ≡ canonical_key k
unfolding canonical_key
canonical_key_again k = elim (Bool-cases (all_token k)) [
  | inl t ↦ rw t (rw (all_token-canonicalize true k t) (canonicalize_again true k))
  | inr n ↦ rw n (rw n refl)
]

-- Every key of a header map is canonical.
abbrev IsCanonical : Map (List Str) → Type 0
IsCanonical [] = Unit
IsCanonical ((k, vs) ∷ hs) = (canonical_key k ≡ k) × IsCanonical hs

insert-IsCanonical :
    (k : Str) (vs : List Str) (hs : Map (List Str))
    → canonical_key k ≡ k
    → IsCanonical hs
    → IsCanonical (insert k vs hs)
unfolding insert
insert-IsCanonical k vs [] c h = (c, tt)
insert-IsCanonical k vs ((j, ws) ∷ hs) c h = elim (Bool-cases (str_eq j k)) [
  | inl t ↦ rw t (c, h.1)
  | inr n ↦ rw n (h.0, insert-IsCanonical k vs hs c h.1)
]

copy_headers-IsCanonical :
    (hub out : Map (List Str)) → IsCanonical out → IsCanonical (copy_headers hub out)
unfolding copy_headers
copy_headers-IsCanonical [] out h = h
copy_headers-IsCanonical ((k, vs) ∷ hs) out h =
    copy_headers-IsCanonical hs (insert (canonical_key k) vs out)
      (insert-IsCanonical (canonical_key k) vs out (canonical_key_again k) h)

lookup_noncanonical :
    (k : Str) (hs : Map (List Str)) → IsCanonical hs → canonical_key k ≢ k → lookup k hs ≡ none
unfolding lookup
lookup_noncanonical k [] h n = refl
lookup_noncanonical k ((j, vs) ∷ hs) h n = elim (Bool-cases (str_eq j k)) [
  | inl t ↦ let same = str_eq_sound j k t in absurd (n (ap canonical_key (sym same) ∙ h.0 ∙ same))
  | inr f ↦ rw f (lookup_noncanonical k hs h.1 n)
]

-- The agent's bearer token is the only authorization that a proxied request carries: whatever
-- headers the hub sends, and however it spells them, of the spellings whose canonical form is
-- Authorization that form itself has the agent's token as its one value, and no other occurs.
pub authorization_is_ours :
    (hub request : Map (List Str)) (token k : Str)
    → IsCanonical request
    → canonical_key k ≡ authorization
    → lookup k (apply_headers hub token request)
      ≡ (if str_eq authorization k then some ((codes "Bearer " ++ token) ∷ []) else none)
unfolding apply_headers
authorization_is_ours hub request token k h c = elim (Bool-cases (str_eq authorization k)) [
  | inl t ↦ rw (lookup-insert, t) refl
  | inr f ↦
      rw (lookup-insert, f)
        (lookup_noncanonical k (copy_headers hub request) (copy_headers-IsCanonical hub request h)
          (λ e. cc (f, differ e)))
]
  where
    differ : canonical_key k ≡ k → str_eq authorization k ≡ true
    differ e = (str_eq_iff authorization k).1 (sym c ∙ e)
