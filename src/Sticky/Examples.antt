-- ===== src/Sticky/Examples.antt =====
-- A listener of lib/utils/sticky-event-emitter.js.
use jambonz_feature_server.Prelude.{ℕ, true}
use jambonz_feature_server.Sticky.{Emitter, create}

abbrev silent : Emitter ℕ
unfolding create
silent = create true
