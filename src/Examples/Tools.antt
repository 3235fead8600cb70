-- ===== src/Examples/Tools.antt =====
-- Statements of a migration, lock ids, and the arguments of the command line.
use migrate.Prelude.{
  some, ℕ, ◌+◌, ◌^◌, ◌<◌, ◌≡◌, ◌↔◌, refl, minus_one, to_int, neg_int, max_int, ltb, Bool, true,
  false, Bytes, List, [], ◌∷◌, ◌++◌, codes, arith, if◌then◌else◌,
}
use migrate.Prelude.Decimal.{decimal, digits_value}
use migrate.Errors.{ok}
use migrate.Database.Util.{
  generate_advisory_lock_id, generate_advisory_lock_id_lem, id_of, lock_name,
}
use migrate.Database.Multistmt.{Chunks, chunk, eof, parse, cut_after}
use migrate.Database.Multistmt.Parts.{parts, parts_within}
use migrate.Database.Multistmt.Pieces.{Pieces}
use migrate.Database.Multistmt.Scan.{final, feed, parse-parts}
use migrate.Database.Stub.{stub_driver}
use migrate.Engine.Operations.{down, steps}
use migrate.Engine.OnStub.Locked.{idle}
use migrate.Cli.Commands.{
  next_seq_version, next_number, num_down_migrations_from_args, down_cmd, unless_no_change, base,
  before_underscore, parse_number, padded,
}
use migrate.Cli.Sequence.{IsVersion, after_last, next_seq_version-IsVersion}
use migrate.Cli.Limit.{down_cmd_lem}
use migrate.Source.Parse.{parse_uint}
use migrate.Examples.{env, schedule, stub_at}

-- A checksum of 32 bits.
abbrev checksum : Bytes → ℕ
checksum name = 5

generate_advisory_lock_id_lem_example :
    (id_of checksum (codes "app") [] < 2 ^ 32)
    × ((generate_advisory_lock_id checksum (codes "app") []
          ≡ generate_advisory_lock_id checksum (codes "b") (codes "s" ∷ []))
        ↔ (checksum (lock_name (codes "app") [])
            ≡ checksum (lock_name (codes "b") (codes "s" ∷ []))))
generate_advisory_lock_id_lem_example =
    generate_advisory_lock_id_lem checksum (λ name. omega arith) (codes "app") (codes "b") []
      (codes "s" ∷ [])

-- "a;b" in two chunks with an empty one between them.
abbrev reader : Chunks
reader = chunk (codes "a") (chunk [] (chunk (codes ";b") eof))

-- The handler keeps what it gets and wants more.
abbrev keep : Bytes → List Bytes → Bool × List Bytes
keep statement seen = (true, seen ++ statement ∷ [])

two_parts : parts (codes ";") (codes "a;b") ≡ codes "a;" ∷ codes "b" ∷ []
unfolding parts_within cut_after
two_parts = refl

parse-parts_example :
    (parse (codes ";") 10 keep reader []
      ≡ final (codes ";") 10 keep (feed (codes ";") 10 keep (parts (codes ";") (codes "a;b")) []))
    × Pieces (codes ";") (codes "a;b") (parts (codes ";") (codes "a;b"))
parse-parts_example =
    parse-parts (codes ";") 10 keep (omega arith) reader [] refl refl (omega arith)

-- The first file is numbered 7, and the last one, "dir/0099_x.up.sql", 99.
next_seq_version-IsVersion_example : IsVersion 100 4 (codes "0100")
unfolding next_seq_version next_number padded parse_number parse_uint base before_underscore decimal
    digits_value
next_seq_version-IsVersion_example =
    next_seq_version-IsVersion (codes "dir/0007_w.up.sql" ∷ codes "dir/0099_x.up.sql" ∷ []) 100 3
      (codes "0100")
      (after_last (codes "dir/0007_w.up.sql" ∷ []) (some (codes "dir")) b'0' (codes "099")
        (codes "x.up.sql") (refl, (refl, (refl, (refl, tt))))
        (refl, (refl, (refl, (refl, (refl, (refl, (refl, (refl, tt)))))))))
      refl

down_cmd_lem_example :
    (num_down_migrations_from_args false (decimal (max_int + 1) ∷ [])
      ≡ ok (to_int (max_int + 1), false))
    × (down_cmd env stub_driver schedule (idle (stub_at minus_one)) (to_int (max_int + 1)) ≡ (
        if ltb max_int (max_int + 1)
        then unless_no_change env stub_driver schedule
            (down env stub_driver schedule (idle (stub_at minus_one)))
        else unless_no_change env stub_driver schedule (
            steps env stub_driver schedule
              (neg_int (to_int (max_int + 1)))
              (idle (stub_at minus_one)))))
down_cmd_lem_example =
    down_cmd_lem env stub_driver schedule (max_int + 1) (idle (stub_at minus_one)) (omega arith)
