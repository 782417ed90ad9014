-- ===== src/Prelude/Texts.antt =====
-- strings.TrimPrefix, and lower-casing of ASCII letters.
use Prim.Native.Nat.{ℕ, ◌+◌}
use mathlib.Core.Bool.{◌&&◌}
use mathlib.Core.List.{[], ◌∷◌}
use inari_agent.Prelude.Base.{if◌then◌else◌, leb}
use inari_agent.Prelude.Bytes.{Str, has_prefix}

-- The text behind as many bytes as `p` has.
unfoldable pub behind : Str → Str → Str
behind [] s = s
behind (p ∷ ps) [] = []
behind (p ∷ ps) (c ∷ s) = behind ps s

unfoldable pub trim_prefix : Str → Str → Str
unfolding behind
trim_prefix p s = if has_prefix s p then behind p s else s

abbrev pub lower_byte : ℕ → ℕ
lower_byte c = if leb b'A' c && leb c b'Z' then c + 32 else c

unfoldable pub lower : Str → Str
lower [] = []
lower (c ∷ s) = lower_byte c ∷ lower s
