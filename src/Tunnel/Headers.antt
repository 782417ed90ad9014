-- ===== src/Tunnel/Headers.antt =====
-- internal/tunnelagent/relay.go: applyHeaders, with net/http's CanonicalHeaderKey.
pub mod Canonical
use inari_agent.Prelude.{
  ℕ, ◌+◌, ◌-◌, Str, codes, Bool, true, false, ◌&&◌, ◌||◌, if◌then◌else◌, Map, insert, List, [], ◌∷◌,
  ◌++◌, leb, ◌==◌,
}

abbrev is_upper : ℕ → Bool
is_upper c = leb b'A' c && leb c b'Z'

abbrev is_lower : ℕ → Bool
is_lower c = leb b'a' c && leb c b'z'

-- The other bytes of an HTTP token: digits and !#$%&'*+-.^_`|~
abbrev is_other_token : ℕ → Bool
is_other_token c =
    (leb 48 c && leb c 57)
    || (c == 33)
    || (leb 35 c && leb c 39)
    || (c == 42)
    || (c == 43)
    || (c == 45)
    || (c == 46)
    || (c == 94)
    || (c == 95)
    || (c == 96)
    || (c == 124)
    || (c == 126)

unfoldable is_token : ℕ → Bool
is_token c = is_upper c || (is_lower c || is_other_token c)

unfoldable all_token : Str → Bool
unfolding is_token
all_token [] = true
all_token (c ∷ s) = is_token c && all_token s

-- Upper case at the start and after a hyphen, lower case elsewhere.
unfoldable recase : Bool → ℕ → ℕ
recase true c = if is_lower c then c - 32 else c
recase false c = if is_upper c then c + 32 else c

unfoldable canonicalize : Bool → Str → Str
unfolding recase
canonicalize up [] = []
canonicalize up (c ∷ s) = recase up c ∷ canonicalize (c == 45) s

-- http.CanonicalHeaderKey; a key with another byte in it is left as it is.
unfoldable pub canonical_key : Str → Str
unfolding all_token canonicalize
canonical_key k = if all_token k then canonicalize true k else k

abbrev pub authorization : Str
authorization = codes "Authorization"

-- The loop over the hub's headers.
unfoldable copy_headers : Map (List Str) → Map (List Str) → Map (List Str)
unfolding canonical_key
copy_headers [] out = out
copy_headers ((k, vs) ∷ hs) out = copy_headers hs (insert (canonical_key k) vs out)

-- The request's headers: the hub's, with the agent's own token over them. `token` is what TokenFunc
-- or BearerToken gives.
unfoldable pub apply_headers : Map (List Str) → Str → Map (List Str) → Map (List Str)
unfolding copy_headers
apply_headers hub token request =
    insert authorization ((codes "Bearer " ++ token) ∷ []) (copy_headers hub request)
