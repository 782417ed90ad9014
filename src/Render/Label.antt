-- ===== src/Render/Label.antt =====
-- internal/render/renderer.go: the labels of what the agent renders, and objects written as lists.
use inari_agent.Prelude.{Str, codes, List, [], ◌∷◌}
use inari_agent.Prelude.Docs.{Doc, text, object, Fields, end, field}

abbrev pub managed_by_label : Str
managed_by_label = codes "inari.dev/managed-by"

abbrev pub managed_by_value : Str
managed_by_value = codes "inari-agent"

abbrev pub instance_label : Str
instance_label = codes "inari.dev/instance"

-- map[string]interface{}{…}
abbrev pub fields_of : List (Str × Doc) → Fields
fields_of [] = end
fields_of ((k, d) ∷ fs) = field k d (fields_of fs)

abbrev pub object_of : List (Str × Doc) → Doc
object_of fs = object (fields_of fs)

abbrev pub managed_labels : Doc
managed_labels = object_of ((managed_by_label, text managed_by_value) ∷ [])
