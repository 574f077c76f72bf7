-- ===== src/Lib.antt =====
-- A model of claude-teleport, which moves a running Claude Code session from one host to another.
--
-- The program's parts. A detached runner (internal/orchestrate/runner.go) opens a job's journal
-- (internal/job), dials the two endpoints and runs a list of resumable steps, each recorded in the
-- journal. The steps freeze the session's process on the source (internal/procx/freezer.go), plan
-- the repository's transfer (internal/gitx/plan.go), rewrite paths with a path map
-- (internal/session/pathmap.go), classify the files of a manifest on the destination
-- (internal/transfer), and open a tmux window there (internal/tmuxx).
--
-- The files, by the code that they model:
--   Base, Base/*: shared names, tests, lists, byte strings and Go's int.
--   FilePath, FilePath/Rel: filepath.Clean, Join, Dir and Rel on Unix, as documented.
--   Job/Id: ValidateID, Dir, StagingDir. Job/Journal: the journal's record, Step, New and the
--   paths. Job/Save: withLock, saveLocked, Save, Open, SaveMerged. Job/Run: Run and fail.
--   Orchestrate/Runner: RunJob, FailedStep, ExitCode. Orchestrate/Endpoint: the calls of the two
--   endpoints. Orchestrate/Steps: persist, runFreeze; Steps/Start, Shape, Exit and Record: runStart,
--   runShape, runThawExit, runRecord; Steps/Verify: verifyStart, verifyThawExit,
--   verifyFreeze, verifyShape; Steps/Argv: PlaceholderArgv, SuspendArgv; Steps/Ids:
--   foldInstalledIDs, notOwned, sameIDs.
--   Session/PathMap: ParseMappings, NewPathMap, ApplyPath, Apply. Session/Paths: Munge, NewPaths.
--   Session/MemoryIndex: MergeMemoryIndex. Session/Prefix: IsPrefix. Ssh/Quote: Quote of internal/sshx.
--   Tmux/Quote: Quote, UnvisName, CanonicalMember. Tmux/Window: BaseSession, StoredSessionName,
--   RefString.
--   Transfer/Manifest: Entry, ByID, ffAllowed. Transfer/Diff: stagedState, Diff, Need, Pending,
--   Blocking. Transfer/Build: Build, Forbidden. Transfer/Install: install, checkForceOverwrite.
--   Transfer/Trust: the decision of grantTrust. Transfer/Under: underDir. Transfer/Roots: GitRoots,
--   entryRoot, resolveExisting, CheckDestDir. Transfer/Validate: newValidator, resolvedRoot and
--   rootReason; its children Check (check and its cases, commitClaims), Placement (checkPlacement,
--   recheckBeforePlacement) and Link (checkSymlinkTarget). Transfer/Installed: loadInstalled,
--   saveInstalled, recordOf. Transfer/Uninstall: Uninstall, UninstallIDs, createdDirsDeepestFirst.
--   Git/Plan: PlanTransfer, SetStagedBlobs.
--   Process/Freezer: checkStart, groupToSignal, signalTarget, RunFreezerHelper.
--   Tests/*: applications to concrete values; Tests/Machine is a small operating system.
-- The children of these modules hold the proofs and are named for what they prove.
--
-- State is passed explicitly. The operating system, the clock, encoding/json, the endpoints and the
-- closures of the steps are records of functions over a world that is a parameter; what is assumed
-- of the operating system is the record IsLawful of Job/Save/Atomic, and of the plan on disk IsJournal of
-- Orchestrate/Steps/Record/Once. A pointer to an entry of the
-- journal's table is represented by the entry's name. What a call on the destination's files
-- returns is a value (Transfer/Diff), and so is what the kernel says at each moment at which the
-- freezer's helper reads (Process/Freezer). The steps of Orchestrate/Steps record each call that
-- succeeds in a trace, with what it returned. EvalSymlinks and Lstat are two functions of a path
-- (Transfer/Roots), which a pass of the validator sees unchanged and a later check need not.
-- Errors are values; texts of errors are kept where the program stores them. Logging is left out.
--
-- Bounds and fuel. Numbers are unbounded: counters, sizes and process numbers lie far inside 64
-- bits; Go's int, where it may be negative, is Base/Int's type. Apply and UnvisName run on the
-- length of the text as fuel, IsPrefix on that of the existing file, TrimSpace on that of its
-- text: every round reads at least one byte.
--
-- Not modelled: the preflight and the steps between freeze and start, the ssh client, the protocol
-- and its streams, the command line, the other readers of session files, git attach and packs, and
-- the tmux client, which are for the most part input and output or stand on libraries. The wait for
-- the source's prompt, the texts on a screen and the endpoints' own work are arguments of the steps.
pub mod Base
pub mod FilePath
pub mod Job
pub mod Process
pub mod Session
pub mod Tmux
pub mod Git
pub mod Ssh
pub mod Transfer
pub mod Orchestrate
pub mod Tests
