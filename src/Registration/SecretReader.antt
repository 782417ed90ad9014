-- ===== src/Registration/SecretReader.antt =====
-- internal/registration/store.go: ReadSecret. What the poll sees of the Secret is the list of the answers to
-- its lookups, one for each interval until the timeout.
use inari_agent.Prelude.{
  Str, codes, ◌||◌, if◌then◌else◌, Option, none, some, Outcome, ok, err, Map, lookup, List, [], ◌∷◌,
  ◌++◌, is_empty,
}
use inari_agent.Registration.Credentials.{SecretReference}

-- The answer to a lookup.
pub data Lookup : Type 0 where
  absent : Lookup
  lookup_failed : Str → Lookup
  present : Map Str → Lookup

-- The condition function of the poll: `none` is another round.
unfoldable pub secret_in : (Str → Str) → SecretReference → Lookup → Option (Outcome Str Str)
secret_in quote ref absent = none
secret_in quote ref (lookup_failed e) = some (err e)
secret_in quote ref (present fields) = elim (lookup ref.key fields) [
  | none ↦ some (
      err (
        codes "registration: secret "
        ++ (ref.namespace ++ (b'/' ∷ (ref.name ++ (codes " has no key " ++ quote ref.key))))))
  | some raw ↦
      if is_empty raw
      then some (
          err (
            codes "registration: secret "
            ++ (ref.namespace ++ (b'/' ∷ (ref.name ++ (codes " has no key " ++ quote ref.key))))))
      else some (ok raw)
]

-- PollUntilContextTimeout, which begins at once: the end of the answers is the timeout.
unfoldable pub poll {ℓ} :
    {A : Type ℓ} → Str → (Lookup → Option (Outcome Str A)) → List Lookup → Outcome Str A
poll timeout_error condition [] = err timeout_error
poll timeout_error condition (a ∷ rest) =
    let later = poll timeout_error condition rest in
    elim (condition a) [ none ↦ later | some r ↦ r ]

-- ReadSecret, of the answers to its lookups.
unfoldable pub read_secret : (Str → Str) → Str → SecretReference → List Lookup → Outcome Str Str
unfolding secret_in poll
read_secret quote timeout_error ref answers =
    if is_empty ref.name || (is_empty ref.namespace || is_empty ref.key)
    then err (codes "registration: incomplete secret reference")
    else elim (poll timeout_error (secret_in quote ref) answers) [
      | ok value ↦ ok value
      | err e ↦ err (
          codes "registration: wait for ESO secret "
          ++ (ref.namespace ++ (b'/' ∷ (ref.name ++ (codes ": " ++ e)))))
    ]
