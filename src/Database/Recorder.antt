-- ===== src/Database/Recorder.antt =====
-- The contract of a database driver for the version it keeps: what `runMigrations` relies on and what the
-- drivers provide.
use migrate.Prelude.{
  ◌≡◌, refl, zero, suc, ℤ, pos, negsuc, minus_one, Bool, false, Option, none, some,
}
use migrate.Errors.{Error, Result, ok}
use migrate.Database.Driver.{Driver, Reader}

-- What `Version` answers after `SetVersion(version, dirty)`: a version is kept with its flag, and so is the nil
-- version, which issue 330 of the repository asks for when it is dirty; below it there is no version.
abbrev pub recorded : ℤ → Bool → ℤ × Bool
recorded (pos n) dirty = (pos n, dirty)
recorded (negsuc zero) dirty = (minus_one, dirty)
recorded (negsuc (suc n)) dirty = (minus_one, false)

-- The contract of a driver. `IsReady` holds of the states in which it is kept, `Fits` of the versions that the
-- database can store, and `Apart` of the migrations that leave the record alone.
pub record Recorder {D : Type 0} (db : Driver D) : Type 1 where
  pub IsReady : D → Type 0
  pub Fits : ℤ → Type 0
  pub Apart : Reader → Type 0
  pub set_keeps : (v : ℤ) (b : Bool) (d : D) → IsReady d → IsReady (db.set_version v b d).1
  pub set_sets :
      (v : ℤ) (b : Bool) (d d' : D)
      → IsReady d
      → Fits v
      → db.set_version v b d ≡ (none, d')
      → db.version d' ≡ ok (recorded v b)
  pub set_fails :
      (v : ℤ) (b : Bool) (d d' : D) (e : Error)
      → IsReady d
      → Fits v
      → db.set_version v b d ≡ (some e, d')
      → db.version d' ≡ db.version d
  pub lock_keeps :
      (o : Option Error) (d d' : D)
      → IsReady d
      → db.lock d ≡ (o, d')
      → IsReady d' × (db.version d' ≡ db.version d)
  pub unlock_keeps :
      (o : Option Error) (d d' : D)
      → IsReady d
      → db.unlock d ≡ (o, d')
      → IsReady d' × (db.version d' ≡ db.version d)
  pub run_keeps :
      (r : Reader) (o : Option Error) (d d' : D)
      → IsReady d
      → Apart r
      → db.run r d ≡ some (o, d')
      → IsReady d' × (db.version d' ≡ db.version d)

-- A call of `SetVersion` that returned nil left the version `after`, and one that failed left `before`.
abbrev pub Atomic :
    {D : Type 0} → Driver D → Result (ℤ × Bool) → ℤ × Bool → Option Error × D → Type 0
Atomic db before after (none, d) = db.version d ≡ ok after
Atomic db before after (some e, d) = db.version d ≡ before

module _ {D : Type 0} {db : Driver D} (rec : Recorder db) where
  pub set_version-Atomic :
      (v : ℤ) (b : Bool) (d : D)
      → rec.IsReady d
      → rec.Fits v
      → Atomic db (db.version d) (recorded v b) (db.set_version v b d)
  set_version-Atomic v b d ready fits = by_outcome (db.set_version v b d) refl
    where
      by_outcome :
          (r : Option Error × D)
          → db.set_version v b d ≡ r
          → Atomic db (db.version d) (recorded v b) r
      by_outcome (none, d') h = rec.set_sets v b d d' ready fits h
      by_outcome (some e, d') h = rec.set_fails v b d d' e ready fits h
