-- ===== src/Cmd.antt =====
-- cmd/main.go: the values that are read from environment variables, given as texts ("" where unset).
use inari_agent.Prelude.{
  ℕ, Str, codes, if◌then◌else◌, none, some, Map, insert, List, [], ◌∷◌, split, cut, trim_space,
  is_empty,
}

-- The loop of parseLabels, over the pairs, from the map so far.
unfoldable labels_from : List Str → Map Str → Map Str
labels_from [] out = out
labels_from (pair ∷ pairs) out =
    let (k, v) = cut b'=' (trim_space pair) in
    labels_from pairs
      (elim v [ none ↦ out | some value ↦ if is_empty k then out else insert k value out ])

-- parseLabels
unfoldable pub parse_labels : Str → Map Str
unfolding labels_from
parse_labels s = labels_from (split b',' s) []

unfoldable trimmed_names : List Str → List Str
trimmed_names [] = []
trimmed_names (ns ∷ rest) =
    let more = trimmed_names rest in if is_empty (trim_space ns) then more else trim_space ns ∷ more

-- parseNamespaces
unfoldable pub parse_namespaces : Str → List Str
unfolding trimmed_names
parse_namespaces s = elim (trimmed_names (split b',' s)) [
  | [] ↦ codes "inari-system" ∷ []
  | ns ∷ rest ↦ ns ∷ rest
]

-- readyzDisconnectGrace, in nanoseconds. What time.ParseDuration makes of the text: an error, a
-- negative duration, or a duration.
pub data ParsedDuration : Type 0 where
  unparsed negative : ParsedDuration
  duration : ℕ → ParsedDuration

abbrev default_grace : ℕ
default_grace = 90000000000

unfoldable pub readyz_disconnect_grace : Str → ParsedDuration → ℕ
readyz_disconnect_grace [] _ = default_grace
readyz_disconnect_grace (c ∷ s) unparsed = default_grace
readyz_disconnect_grace (c ∷ s) negative = default_grace
readyz_disconnect_grace (c ∷ s) (duration d) = d

-- The namespace of the journal and of the rebinding, which buildGitOps takes from the variable of the
-- git credentials.
unfoldable pub journal_namespace : Str → Str
journal_namespace s = if is_empty s then codes "inari-system" else s
