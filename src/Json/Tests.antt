-- ===== src/Json/Tests.antt =====
-- The canonical text at a concrete value.
use metricops_backend.Common.{◌≡◌, refl}
use metricops_backend.Json.{Json, num, str, obj, end, field}
use metricops_backend.Json.Printer.{canonical_json}
use metricops_backend.Json.Canonical.{normal, canonical_json_unique}

abbrev one_order : Json
one_order = obj (field "kind" (str "host") (field "count" (num 12) end))

abbrev other_order : Json
other_order = obj (field "count" (num 12) (field "kind" (str "host") end))

same_text : canonical_json one_order ≡ canonical_json other_order
unfolding canonical_json
same_text = refl

canonical_json_unique_example : normal one_order ≡ normal other_order
canonical_json_unique_example = canonical_json_unique one_order other_order same_text
