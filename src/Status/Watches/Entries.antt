-- ===== src/Status/Watches/Entries.antt =====
-- internal/status/watch.go: an entry that is printed from a watch is read back.
use inari_agent.Prelude.{
  ℕ, Str, Bool, true, false, ◌||◌, if◌then◌else◌, Option, none, some, ok, List, [], ◌∷◌, ◌++◌, ◌≡◌,
  ◌≢◌, refl, ap, ◌∙◌, arith, is_empty, split, cut,
}
use inari_agent.Status.Watches.{WatchResource, check_selector, with_parts, parse_entry}

-- None of the bytes is the given one.
abbrev IsFree : ℕ → Str → Type 0
IsFree sep [] = Unit
IsFree sep (c ∷ s) = (c ≢ sep) × IsFree sep s

split_piece : (sep : ℕ) (a s : Str) → IsFree sep a → split sep (a ++ (sep ∷ s)) ≡ a ∷ split sep s
unfolding split
split_piece sep [] s h = ground arith
split_piece sep (c ∷ a) s h = ground (arith, split_piece sep a s h.1, h.0)

split_last : (sep : ℕ) (a : Str) → IsFree sep a → split sep a ≡ a ∷ []
unfolding split
split_last sep [] h = refl
split_last sep (c ∷ a) h = ground (arith, split_last sep a h.1, h.0)

cut_found : (sep : ℕ) (a s : Str) → IsFree sep a → cut sep (a ++ (sep ∷ s)) ≡ (a, some s)
unfolding cut
cut_found sep [] s h = ground arith
cut_found sep (c ∷ a) s h = ground (arith, cut_found sep a s h.1, h.0)

cut_missing : (sep : ℕ) (a : Str) → IsFree sep a → cut sep a ≡ (a, none)
unfolding cut
cut_missing sep [] h = refl
cut_missing sep (c ∷ a) h = ground (arith, cut_missing sep a h.1, h.0)

IsFree-append : (sep : ℕ) (a b : Str) → IsFree sep a → IsFree sep b → IsFree sep (a ++ b)
IsFree-append sep [] b h k = k
IsFree-append sep (c ∷ a) b h k = (h.0, IsFree-append sep a b h.1 k)

-- The text group/version/resource, and the entry of a watch.
abbrev print_gvr : WatchResource → Str
print_gvr w = w.group ++ (b'/' ∷ (w.version ++ (b'/' ∷ w.resource)))

abbrev pub print_entry : WatchResource → Str
print_entry w = if is_empty w.selector then print_gvr w else print_gvr w ++ (b'@' ∷ w.selector)

-- A watch that has a version and a resource, no '/' or '@' in its group, version and resource, and a
-- valid selector if it has one (which may hold any byte).
pub record IsPrintable (valid : Str → Bool) (w : WatchResource) : Type 0 where
  pub version_given : is_empty w.version ≡ false
  pub resource_given : is_empty w.resource ≡ false
  pub slashes : IsFree b'/' w.group × IsFree b'/' w.version × IsFree b'/' w.resource
  pub ats : IsFree b'@' w.group × IsFree b'@' w.version × IsFree b'@' w.resource
  pub selector_valid : is_empty w.selector || valid w.selector ≡ true

split_gvr :
    (valid : Str → Bool) (w : WatchResource)
    → IsPrintable valid w
    → split b'/' (print_gvr w) ≡ w.group ∷ w.version ∷ w.resource ∷ []
split_gvr valid w p =
    split_piece b'/' w.group _ p.slashes.0
    ∙ ap (λ (r : List Str). w.group ∷ r)
        (split_piece b'/' w.version _ p.slashes.1
          ∙ ap (λ (r : List Str). w.version ∷ r) (split_last b'/' w.resource p.slashes.2))

gvr-IsFree :
    (valid : Str → Bool) (w : WatchResource) → IsPrintable valid w → IsFree b'@' (print_gvr w)
gvr-IsFree valid w p = IsFree-append b'@' w.group _ p.ats.0 (
  (λ e. absurd (omega arith)),
  IsFree-append b'@' w.version _ p.ats.1 ((λ e. absurd (omega arith)), p.ats.2),
)

-- What the three parts and the text behind '@' are read as.
read_parts :
    (valid : Str → Bool) (w : WatchResource) (entry : Str)
    → IsPrintable valid w
    → (behind : Option Str) → check_selector valid entry behind ≡ ok w.selector
    → with_parts valid entry (w.group ∷ w.version ∷ w.resource ∷ []) behind ≡ ok w
unfolding with_parts
read_parts valid w entry p behind e = simp (p.version_given, p.resource_given, e)

print_read :
    (valid : Str → Bool) (w : WatchResource) (s : Str)
    → IsPrintable valid w
    → s ≡ w.selector
    → is_empty s || valid s ≡ true
    → parse_entry valid (if is_empty s then print_gvr w else print_gvr w ++ (b'@' ∷ s)) ≡ ok w
unfolding parse_entry check_selector
print_read valid w [] p e v =
    rw (cut_missing b'@' (print_gvr w) (gvr-IsFree valid w p), split_gvr valid w p)
      (read_parts valid w (print_gvr w) p none (ap ok e))
print_read valid w (c ∷ s) p e v =
    rw (cut_found b'@' (print_gvr w) (c ∷ s) (gvr-IsFree valid w p), split_gvr valid w p)
      (read_parts valid w (print_gvr w ++ (b'@' ∷ c ∷ s)) p (some (c ∷ s)) (rw v (ap ok e)))

-- For a watch with a version and a resource, whose group, version and resource hold neither '/' nor '@' and
-- whose selector, if it has one, is valid, the entry group/version/resource or
-- group/version/resource@selector is read back as that watch.
pub parse-print_entry :
    (valid : Str → Bool) (w : WatchResource)
    → IsPrintable valid w
    → parse_entry valid (print_entry w) ≡ ok w
parse-print_entry valid w p = print_read valid w w.selector p refl p.selector_valid
