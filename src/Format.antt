-- ===== src/Format.antt =====
-- frontend/src/lib/format.ts: the labels of zones.
use industrial_safety_intell.Prelude.{String, List, Option, none, some, and_then}
use industrial_safety_intell.Prelude.Eq.{◌==◌, string_eq}
use industrial_safety_intell.Prelude.Lists.{find}
use industrial_safety_intell.Prelude.Text.{◌⧺◌}
use industrial_safety_intell.Prelude.Words.{cut}
use industrial_safety_intell.Api.Risk.{Zone}

unfoldable pub short_zone_label : String → String
unfolding cut
short_zone_label zone_id = "Zone " ⧺ cut 8 zone_id

abbrev pub label_of : String → Option Zone → String
label_of zone_id none = short_zone_label zone_id
label_of zone_id (some zone) = zone.name

-- `none` is `undefined`: the zones are still loading.
unfoldable pub zone_label : String → Option (List Zone) → String
unfolding short_zone_label find
zone_label zone_id zones = label_of zone_id (and_then zones (find (λ z. z.zone_id == zone_id)))
