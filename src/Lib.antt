-- ===== src/Lib.antt =====
-- Webox: the core of a terminal cockpit for shared hosting.
--
-- The wizard provisions a project at a hosting panel and keeps a stack of cleanup steps, so that
-- a failure can be rolled back. It reaches the panel through a contract that adapters register
-- for, and the panel is reached over SSH. A cache keeps the status of projects, and the dashboard
-- shows log lines from a ring buffer.
--
-- Parts, and where they stand:
-- + Prelude (with Tests, Lists, Text, Words, Int, Decimal): what of Go the program uses. A string is the
--   list of its code points, an int an integer, a map with string keys a list of pairs.
-- + Errors: error values as chains of wrapped errors, and errors.Is. Message texts are left out.
-- + Wizard/Step, Wizard/Secret, Wizard/Stack: the LIFO stack of wizard/rollback.go and the types of
--   wizard/types.go. Push, Pop and Rollback are cut where they let go of the mutex. Stack/Undo is
--   about Rollback, Stack/History about sequences of calls, Stack/Races about two Pushes at once.
-- + Wizard/Runner: MakeStepRunner and MakeStepRunnerWithGitHub of wizard/rollback.go.
-- + Wizard/Pending: wizard/pending_cleanups.go, over a disk. Wizard/Encoding and Prelude/Encoding are
--   encodings for witnesses.
-- + Wizard/Workflow: wizard/workflow_validate.go; the regular expression is an argument.
-- + Wizard/Plan: wizard/plan.go. Wizard/Execute: wizard/execute.go, over a panel.
-- + Wizard/GitHubPlan, Wizard/GitHub: wizard/github_execute.go, over a provisioner. GitHub/Balance
--   goes through its stages, GitHub/Accounts is about the whole.
-- + Providers/Registry: the HostingProvider methods that the wizard calls (providers/provider.go),
--   the two registries and New (providers/registry.go, providers/validators.go).
-- + Ring: tui/components/ringbuffer.go.
-- + Status: the status cache (status/cache.go, status/ttl.go).
-- + Ssh/Options, Ssh/Host, Ssh/Pool: ssh/pool.go and the budget of ssh/inflight.go. Pool/Steps has
--   each critical section as a step, so that any interleaving of callers is a path of steps.
-- + Ssh/Retry: the loops of ssh/retry.go and ssh/exec.go. Ssh/Exec: Exec of ssh/exec.go.
--   Ssh/Target: Target.Key of ssh/types.go.
-- + Bento: the tiers and rectangles of the dashboard (tui/bento: mode.go, override.go, layout.go,
--   and planRowBudgets of engine.go). Partition and Cover are about cells and slots, Budget and Inside
--   about sizes.
-- + Telemetry: the trace file (internal/telemetry/file_sink.go), its operations in Sink. Steps has
--   those of callers and of the writer in any order, Accounts what they keep, Races a Record with
--   Close between its halves.
-- + Sshtail: the quoting and the loop of services/sshtail (shellescape.go, stream.go). Shell says
--   how a POSIX shell splits a command into words.
-- + Secrets: the encrypted file of secrets/fallback.go and secrets/fallback_crypto.go: File writes
--   it, Vault has the operations, History and Calls sequences of them.
-- + Config: Validate of config/schema.go, Migrate of config/migrate.go, Load and Save of
--   config/load.go and config/save.go. Json is a decoded document, Store has Load and Save; Valid,
--   Migrated and Backup are about them. Files has the stages in which a file is replaced.
-- + Smallhost: the adapter of the Devil panel (providers/smallhost). Paths has the validators and the
--   paths of paths.go, Clean, Scan and Parsers those of parsers.go, Adapter the methods of methods.go
--   over the executor of executor.go, Properties config.go. Visible, Printed and Rows are about the
--   parsers; Commands, Sent and Requests about the commands sent; Refusals and Reachable about errors.
-- + Presets: the preset catalogue (presets/preset.go, validator.go, loader.go, registry.go). Order is
--   the sort, Load/Files and Load/Loaded are about a directory, Catalog and
--   Listings about the whole.
-- + GitHub/Poll: services/github/poll.go; GitHub/Answers is about its loop. GitHub/Rest: doJSON and
--   GetWorkflowSteps of rest.go and withFallback of client.go; Calls: the other calls of rest.go and
--   the REST halves of contents.go and cleanup.go; Steps and Logs: steps.go and logs.go.
--
-- How they interact: Execute calls the panel through the record HostingProvider and pushes one
-- cleanup for each resource; a runner made from the same panel serves Rollback; registries hand
-- out the factories and validators that a plan is checked with. Smallhost fills that record, and its
-- validators are those of a plan; it reaches the panel through Exec, which takes a client of the pool.
--
-- Arguments of the definitions stand for what is no code of these parts: the context (ctx.Err,
-- asked anew at each call), the PersistFunc, the clock, the panel, factories and validators, the
-- fetch and singleflight's Do, the dialer, the semaphore, a command's run, sleeps, and the float64
-- arithmetic of the jitter, the files, the random source, the executor of log streams and the getter
-- of runs. Each may answer otherwise at each call: it takes and gives a world, and so does
-- net/http. Ciphers, JSON, the schema compiler, redaction and the patterns of secrets are functions;
-- the patterns of the panel's output are written out.
--
-- Fuel: Rollback's loop takes one more than the number of steps, since each turn pops a step or
-- ends. The digits of a number n take n + 1, since each divides by ten. The retry loops recur on
-- the attempts or delays left, and so does the loop of a log stream. The wait for a run has no bound
-- of its own; the fuel it takes is the number of its turns. Migrate takes at most two turns,
-- a request of doJSON three.
--
-- Bounds: the counters of ssh/retry.go wrap at 2 ^ 64, and the shift of the backoff at 64 bits.
-- Times and durations are integers without bound. A client of the pool is the number of its
-- address; a channel that is closed to wake waiters is the number of channels closed before it.
--
-- Left out of a modelled part: message texts; links and descriptions in the records of GitHub; the
-- wiping of keys in memory; a random source that fails, which stops the program; the ticker that
-- only flushes the trace file.
--
-- Not modelled: the painting of the terminal interface (tui), the command line (cmd), the other
-- adapters (providers/cpanel, providers/directadmin), the gh CLI transport of services/github
-- (cli.go, secret.go), the operating system's keyring, the other services, i18n: files, network and
-- rendering for the most part.
pub mod Prelude
pub mod Errors
pub mod Files
pub mod Ring
pub mod Bento
pub mod Telemetry
pub mod Smallhost
pub mod Sshtail
pub mod Secrets
pub mod GitHub
pub mod Config
pub mod Presets
pub mod Providers
pub mod Wizard
pub mod Status
pub mod Ssh
