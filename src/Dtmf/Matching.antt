-- ===== src/Dtmf/Matching.antt =====
-- What the collector of lib/utils/dtmf-collector.js keeps.
use jambonz_feature_server.Prelude.{ℕ, ◌-◌, ◌<◌, List, [], ◌∷◌}
use jambonz_feature_server.Dtmf.Collector.{DtmfEntry}

-- Two key presses in a row are less than the time-out apart.
abbrev pub IsUnbroken : ℕ → List DtmfEntry → Type 0
IsUnbroken idt [] = Unit
IsUnbroken idt (e ∷ []) = Unit
IsUnbroken idt (e ∷ f ∷ es) = (f.time - e.time < idt) × IsUnbroken idt (f ∷ es)
