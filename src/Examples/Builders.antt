-- ===== src/Examples/Builders.antt =====
-- A server that is built from two settings.
use tsdns.Prelude.{pos, Option, none, List, [], ◌∷◌, Bytes, Error}
use tsdns.Core.Record.{Record}
use tsdns.Core.Builder.Settings.{Setting}
use tsdns.Examples.Fixtures.{stored}

abbrev resolves : Bytes → Option Error
resolves addr = none

abbrev settings : List (Setting (List Record))
settings = Setting.repository stored ∷ Setting.cache_refresh_interval (pos 0) ∷ []
