-- ===== src/Prelude/Docs.antt =====
-- Unstructured documents: the map[string]interface{} values of manifests and of command parameters. A
-- number is its decimal text.
use mathlib.Core.Bool.{Bool}
use mathlib.Core.Option.{Option, none, some}
use inari_agent.Prelude.Base.{if◌then◌else◌}
use inari_agent.Prelude.Bytes.{Str, str_eq}

mutual
  pub data Doc : Type 0 where
    text : Str → Doc
    flag : Bool → Doc
    number : Str → Doc
    null : Doc
    object : Fields → Doc
    array : Docs → Doc

  -- A map: the fields of an object, under their names.
  pub data Fields : Type 0 where
    end : Fields
    field : Str → Doc → Fields → Fields

  pub data Docs : Type 0 where
    stop : Docs
    item : Doc → Docs → Docs

-- Is there a field of this name?
unfoldable pub has_field : Str → Fields → Bool
has_field k end = Bool.false
has_field k (field j d fs) = let rest = has_field k fs in if str_eq j k then Bool.true else rest

unfoldable pub get_field : Str → Fields → Option Doc
get_field k end = none
get_field k (field j d fs) = let rest = get_field k fs in if str_eq j k then some d else rest

-- m[k] = d
unfoldable pub set_field : Str → Doc → Fields → Fields
set_field k d end = field k d end
set_field k d (field j e fs) =
    let rest = set_field k d fs in if str_eq j k then field j d fs else field j e rest
