-- ===== src/Lib.antt =====
-- The migration tool of this repository: it reads numbered migrations from a source and runs them
-- against a database, keeping the current version and whether the last migration failed.
--
-- Parts of the program and the modules that model them:
--
-- - migrate.go, the engine. Engine/Operations has the struct Migrate (its two fields that change: the
--   state of the database driver and isLocked), lock, unlock, unlockErr and the methods Migrate
--   (migrate_to), Steps, Up, Down, Drop, Run, Force, Version and Close. What Migrate, Steps, Up, Down
--   and Run do in the same words (lock, look at the version, refuse a dirty one, read, run, unlock) is
--   locked_run, with the reader as an argument. Engine/Read has versionExists, newMigration and read,
--   Engine/ReadLimit readUp and readDown, Engine/Run runMigrations, Engine/Feed what is sent between
--   them and stop, Engine/Channel the two at work over the bounded channel, and Engine/New the
--   constructors.
-- - migration.go: Engine/Migration has Migration, NewMigration and Buffer; util.go: Engine/Util.
-- - source/migration.go: Source/Migrations has the index of the versions, with Append, First, Prev,
--   Next, Up and Down; Source/Search is the binary search it calls and Source/Sort the sort.
-- - source/driver.go and database/driver.go: the two interfaces, as records of functions, in
--   Source/Driver and Database/Driver. source/stub, source/iofs,
--   source/httpfs, source/go_bindata and database/stub implement them in Source/Stub, Source/Iofs,
--   Source/Httpfs, Source/Bindata and Database/Stub.
-- - database/cockroachdb, with a table of locks, and database/redshift: Database/CockroachDb and
--   Database/Redshift, with their constructors in Open.
-- - database/sqlite, database/ql, database/postgres and database/mysql: Database/Sqlite, Database/Ql,
--   Database/Postgres (with the connection in Open, the URL in OpenUrl and the statements in
--   Database/Pq) and Database/Mysql. They call a connection of database/sql, which is the record
--   Database/Sql; Database/Sql/Transaction has what they write alike (executeQuery, the body of
--   SetVersion, the loop over table names). database/util.go: Database/Util;
--   database/multistmt/parse.go: Database/Multistmt.
-- - internal/cli/commands.go: Cli/Commands.
-- - source/parse.go: Source/Parse, the names of migration files. internal/url/url.go: Url. The
--   registries of drivers in database/driver.go and source/driver.go: Registry.
-- - Errors has the error values and how errors.Is looks through them.
--
-- How they interact: an operation of the engine calls the database driver on its state and asks the
-- source driver for the versions and bodies. A reader answers with a feed, the list of what it sends
-- on the channel and how it ends, and runMigrations takes the feed item by item to the database.
--
-- Specifications. Engine/Plan states the contract of a source that has a given ascending list of
-- versions (Serves) and the migrations that are to be sent for it: up_spec and down_spec for a
-- limit, up_to and down_to for a target, none of which navigate with the driver. Engine/Plan/Backed
-- is about the sources that answer from the index. Engine/OnStub says what a list of migrations
-- does to the in-memory database (ran_all), with which the operations are compared. That is for a
-- ready call (IsReady): the source keeps its contract and its bodies can be read, Lock answers
-- before the timeout, the database is neither locked nor dirty and at the version that the theorem
-- names, and there is more fuel than versions. Engine/OnStub/Recovery and Stuck are about the other
-- cases. Database/Recorder is the contract of a driver for the version it keeps (Recorder), which
-- Database/Sql/Recorder gives for every SQL driver whose methods act on the rows of a table in a
-- certain way (Backed); Database/Sql/Methods gives that from what the methods do to the connection.
-- What the drivers rely on of the server is the record Table of Database/Sql/Table: transactions
-- work on what was committed and publish it when they are committed, and the three statements about
-- the table do what they say. Engine/Recorded has what such a driver has recorded after a run
-- (Runs), and Engine/Clean after an operation that returned nil (IsClean). What CockroachDB is to
-- do with the table of locks is the record LockTable of Database/CockroachDb/Exclusive.
-- Engine/Protocol has, for any database driver, a log of its calls and the order they are to have
-- (Rounds), and Engine/Lock what the operations do with the lock. Source/Migrations/Index, Order
-- and Neighbours have the invariant of the index and what its queries find. Examples has a small
-- source and the theorems at work on it.
--
-- Choices of the model:
--
-- - An int is the ℤ of Prelude/Int and a uint a natural number; to_int and neg_int are Go's
--   conversions on 64 bits, with their wrap-around. A loop's count, which starts at 0 and only
--   grows with the migrations sent, is a natural number.
-- - The reading loops run on fuel, since nothing makes a driver's Next ever end. With more fuel than
--   versions they do not run out on a source that keeps its contract: each round takes the next one.
-- - The reading goroutine uses the source alone and runMigrations the database alone, so what is
--   sent does not depend on how the two interleave, but for the stop signal: each of the two meets
--   signals of its own (Signals), and the theorems hold for all of them. A goroutine that buffers a
--   body is the text that reaches the pipe and whether it ends; a body that cannot be read leaves the
--   pipe open, and a driver that reads it waits for ever (the outcome blocked).
-- - In Engine/Channel the reader's items are given, since they depend on the source and on the stop
--   signals that the reader meets; a step is one send, one receive with the loop body, or a close.
--   A reader that panics ends the process at any point and is left out there.
-- - A call of a server returns: one that waits forever is not modelled, but for a reader without an
--   end. Statements are byte lists, as the source writes them.
-- - lib/pq, cockroach-go, crc32, the DSN parser of MySQL and net/url are parameters. bufio.Scanner is its loop over
--   what Read returns call by call (Chunks). strings.TrimSpace knows the spaces of ASCII.
-- - The race of Lock against its timeout is an argument (Race).
-- - multierror.Append is a parameter (append_error of Env), as are the file systems and assets of
--   the sources, the parser of file names, which is a variable of the package, and net/url.
-- - Go's map has no order; a map here is an association list, and the index is sorted.
-- - Source drivers are taken to answer the same each time; source/driver.go asks them to be read only.
-- - Left out: times, logs, the texts of errors, and the fields Instance and Config of the stubs,
--   which no method reads.
--
-- Not modelled: the other drivers of databases and the remote sources, whose code is calls of
-- databases and web APIs; urlToMySQLConfig, which registers TLS certificates; of the command line the
-- flags, the files that create makes, and what is printed.
pub mod Prelude
pub mod Errors
pub mod Url
pub mod Registry
pub mod Source
pub mod Cli
pub mod Database
pub mod Engine
pub mod Examples
