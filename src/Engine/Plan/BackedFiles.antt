-- ===== src/Engine/Plan/BackedFiles.antt =====
-- The sources over files that answer from a `Migrations`.
use migrate.Prelude.{Bytes, none, ◌≡◌}
use migrate.Errors.{ok}
use migrate.Source.Migration.{Migration}
use migrate.Source.Migrations
use migrate.Source.Iofs
use migrate.Source.Httpfs.{HttpFile}
use migrate.Source.Httpfs
use migrate.Source.Bindata.{Bindata}
use migrate.Source.Bindata
use migrate.Engine.Plan.Backed.{HasFile}

-- An http.FileSystem that opens every file of the index, and closes it.
abbrev pub OpensHttp : (Bytes → Bytes → Bytes) → Httpfs.PartialDriver → Type 0
OpensHttp join p =
    (m : Migration)
    → HasFile p.migrations m
    → (file : HttpFile) × (p.fs (join p.path m.raw) ≡ ok file) × (file.body.close_error ≡ none)

-- Every file of the index is among the assets.
abbrev pub HasAssets : Bindata → Type 0
HasAssets b =
    (m : Migration)
    → HasFile b.migrations m
    → (text : Bytes) × (b.asset_source.asset_func m.raw ≡ ok text)
