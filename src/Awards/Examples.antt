-- ===== src/Awards/Examples.antt =====
-- An award that is granted twice.
use nim_connect.Base.{Bool, true, none, some, [], Text, codes}
use nim_connect.Awards.{Award}

abbrev wallet : Text
wallet = codes "NQ07 0000 0000 0000 0000 0000 0000 0000 0000"

abbrev reads : Text → Bool
reads t = true

abbrev first_win : Award
first_win = record {
  app_id = codes "chess";
  achievement_id = codes "first";
  address = wallet;
  title = codes "First win";
  description = [];
  rarity = [];
  progress = none;
  visibility = [];
  granted_at = 0;
}

abbrev renamed : Award
renamed = record first_win { title = codes "Winner"; progress = some (codes "1") }
