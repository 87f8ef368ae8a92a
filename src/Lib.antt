-- ===== src/Lib.antt =====
-- Schroedinger Sync keeps Markdown copies of a claude.ai account's conversations, project
-- documents and memory. This library models the program's own logic and proves what it promises.
--
-- The program's parts, and the files that model them (Go files from the repository's root):
--   security.go    Security: RegisterSecret, redact and the stdout redactor, byte by byte. Process:
--                  registerTeardown, runActiveTeardown, fatal. Tray: the same registry between
--                  two goroutines.
--   cdp.go         Fetch: isRateLimited, looksLikeChallenge, getWithRetryDelay, fetchConvBodyDelay,
--                  resolveOrg, listAllConversations. Fetch/Whole: the pages of a listing.
--                  Fetch/InPage: get and rawGet of openClaudeSession. Markdown: rawText,
--                  extractText, convToMarkdown. Harvest: the loop of cdpHarvest. Process:
--                  openClaudeSession, sweepProfileDir, exitOnSessionFailure. Commands: cdpHarvest,
--                  cdpSmoke. Cleanup/Windows: isReparsePoint. Names: pathSafe, sanitize,
--                  convFilename. Text/Runes: trunc. Api: the structs. Json/Write:
--                  jsStringLiteral. Json/Written: what json.Marshal writes is read back.
--   daemon.go      Sync: syncConversations. State: loadState, saveState. Daemon/Decisions:
--                  convAction, cookieWatermark, nextSuperviseState. Daemon/Cycle: harvestOnce,
--                  refreshSurfaces, runCycle. Daemon/Cadence: parseWatchArgs, watchLoop,
--                  superviseLoop. Markdown: fileConvUpdatedAt. Launcher:
--                  vbsLauncherContent, outDirHasLineBreak. Launcher/Task: installTask,
--                  uninstallTask. Cleanup: cleanupTemp, removeResidueTree, processAlive.
--                  Daemon/Running: processPathContains, isDesktopRunning, isVSCodeRunning.
--                  Daemon/Log: logf, setupFileLog.
--   main.go        Cookie: cleanValue, headerSafe, decryptValue, loadMasterKey, readSessionKey.
--                  Cookie/Copy: copyCookieDB, openCookieDB. Commands/Dispatch: main.
--   tray.go        Tray: trayMain's goroutine and menu callbacks, as interleaved steps.
--                  Tray/Icon: trayIcon.
--   probe.go       Probe: the count over all conversations. Probe/Report: cdpProbe.
--   integrity.go   Integrity: loadManifest, saveManifest, writeMarkdown. Integrity/Hash: hashContent.
--   surfaces.go    Surfaces: harvestProjects, harvestMemory.
-- Base has the shared types and lemmas, Text what the program uses of `strings`, `unicode/utf8` and
-- `strconv`, Json what it uses of `encoding/json`, Disk what it uses of `os`, Result the errors.
--
-- A cycle (Daemon/Cycle) reads the state (State), opens a session, lists the conversations and
-- fetches them (Fetch), turns bodies into Markdown (Markdown), writes each file and its hash
-- (Integrity) through the operations of Disk, and saves the state if the harvest was finished. Once a
-- day it goes on to the surfaces (Surfaces), whatever became of the harvest, and saves the time of that.
--
-- A Go string is a list of bytes; ℕ stands for `int` counters, which no run brings near 2^63. State is
-- passed explicitly: Sync is what the loop works on, Disk the output directory, Session the state
-- behind the open browser session with the pauses made so far. What the operating system answers is
-- a part of Disk: an outcome for each operation to come, so a theorem about every Disk holds whatever
-- fails, and a write may break off anywhere.
--
-- Parameters, for code outside the repository: the open session `get` (Chrome and the server), opening
-- and closing it, SHA-256, AES-GCM, DPAPI, base64, PNG, the clock, what the process list prints and what
-- `unicode.ToLower` does outside ASCII. Loops are structural but for
-- listAllConversations and the probe's count, which a server can keep going: they run on fuel, and fuel
-- for more pages than the list fills is enough. The daemon's loops go on for ever, and are modelled by
-- their passes. JSON is read by recursion on the length of the text.
--
-- A run of the program (Process, Commands) keeps the events that the outside sees in their order:
-- fatal messages, Chrome launched and closed, the flush of the redactor, the exit. In Tray a step is
-- one access to what the two goroutines share, and Reach is what any schedule of them reaches.
--
-- Not modelled: what chromedp does in Chrome, the tray's texts (systray), the installer, which lines
-- the program logs where, what is only printed, the query of the cookie database (SQLite), the Windows
-- calls of readSharedFile, and the paths that are joined from the environment's directories.
-- Where the model is coarser than the outside: a name of a file is compared byte by byte, where Windows
-- ignores case; a removal of a tree takes all of it or nothing, and a write to a sink of the log all of
-- the line or nothing; a field's name in JSON is folded in ASCII only, a slice that a key gives twice is
-- decoded afresh, and in a state file that was edited by hand a counter outside int64 is kept, and a
-- negative one is read as 0.
pub mod Base
pub mod Text
pub mod Result
pub mod Json
pub mod Api
pub mod Names
pub mod Security
pub mod Disk
pub mod Integrity
pub mod State
pub mod Markdown
pub mod Fetch
pub mod Sync
pub mod Surfaces
pub mod Daemon
pub mod Launcher
pub mod Harvest
pub mod Cookie
pub mod Cleanup
pub mod Tray
pub mod Process
pub mod Commands
pub mod Probe
mod Tests
