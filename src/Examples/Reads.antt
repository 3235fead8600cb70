-- ===== src/Examples/Reads.antt =====
-- What the readers of migrate.go send on the small source.
use migrate.Prelude.{◌≡◌, refl, pos, inl, arith, none, [], ◌∷◌}
use migrate.Errors.{ok}
use migrate.Source.Driver.{Body}
use migrate.Source.Iofs.{PartialDriver, FileSystem}
use migrate.Engine.Feed.{Signals}
use migrate.Engine.ReadLimit.{read_up, read_down}
use migrate.Engine.Plan.{above, descent, up_spec, down_spec}
use migrate.Engine.Plan.Limits.{read_up-up_spec, read_down-down_spec}
use migrate.Source.Httpfs
use migrate.Source.Bindata.{Bindata}
use migrate.Examples.{three, env, schedule}
use migrate.Examples.Index.{program}
use migrate.Examples.Engine.{In-seven, three-Serves, three_fuel}

abbrev signals : Signals
signals = schedule.reading

read_up-up_spec_example :
    read_up env (pos 1) (pos 5) 4 signals
    ≡ up_spec env.source_drv (pos 5) signals (above (pos 1) three.index)
unfolding program
read_up-up_spec_example =
    read_up-up_spec env three.index three-Serves (pos 5) (pos 1) 4 signals (inl refl) refl
      (omega (arith, three_fuel))

read_down-down_spec_example :
    read_down env (pos 7) (pos 5) 4 signals
    ≡ down_spec env.source_drv (pos 5) signals (descent 7 three.index)
unfolding program
read_down-down_spec_example =
    read_down-down_spec env three.index three-Serves (pos 5) 7 4 signals In-seven refl (omega arith)

abbrev text : Body
text = record { bytes = b'x' ∷ []; read_error = none; close_error = none }

-- A file system on which every name opens the same text.
abbrev disk : FileSystem
disk = record { read_dir = λ path. ok []; open_file = λ path. ok text; close = none }

abbrev files : PartialDriver
files = record { migrations = three; fsys = disk; path = [] }

abbrev http_files : Httpfs.PartialDriver
http_files = record {
  migrations = three;
  fs = λ path. ok (record { body = text; read_dir = ok [] });
  path = [];
}

abbrev assets : Bindata
assets = record {
  asset_source = record { names = []; asset_func = λ name. ok text.bytes };
  migrations = three;
}
