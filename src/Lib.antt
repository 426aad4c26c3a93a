-- ===== src/Lib.antt =====
-- The web client of Sentry USB (web/src), a single-page application that runs on the device and
-- talks to its server by HTTP requests and one WebSocket. Modelled are the parts of the client
-- that keep state or decide something; what they show is React and is not modelled.
--
-- How the parts interact. The WebSocket client (web/src/lib/ws.ts) is one object that the hooks
-- share; the connection status hook listens to it and polls by HTTP besides. Each hook and page
-- keeps React state, which a record holds here; a handler that waits for the server is two
-- functions, up to the wait and from the reply on, so that other events can come in between. The
-- server is no part of the model: its replies are the arguments of the second functions.
--
--   Base           shared names, Boolean tests, lists over the native numbers, integers,
--                  dictionaries with text keys, the texts of JavaScript as used here, and
--                  handlers with `try`, `catch` and `finally` as programs (Exec, Ensures)
--   Ws             web/src/lib/ws.ts, class `WebSocketClient`: sockets, timers, listeners and
--                  handlers, with its events as the step relation of Ws/Status
--   Connection     web/src/hooks/useConnectionStatus.tsx: `evaluate`, `poll`, `retry`
--   KeepAwake      web/src/hooks/useKeepAwake.tsx: polls, heartbeats, start, stop, the mode
--   AwayMode       web/src/hooks/useAwayMode.tsx: polls, enable, disable, the local storage
--   Wizard         web/src/components/setup/SetupWizard.tsx: Validation (`getStepError` and what
--                  it calls), Changes (`detectDestructiveChanges`), Apply (the form and the
--                  apply handlers), Phases (the polls after the setup was started)
--   Telemetry      web/src/hooks/useTelemetry.ts: `frameAtTime`
--   Draggable      web/src/hooks/useDraggable.ts: placement and pointer events
--   Viewer         web/src/pages/Viewer.tsx: Playback (segments, seeking, keys), Library (the
--                  clips by category), Groups (the clips by day)
--   Uploader       web/src/components/upload/MultiFileUploader.tsx: Files (the list and
--                  `addFiles`), Uploads (`uploadSingle`, `uploadAll`)
--   Notifications  web/src/pages/Notifications.tsx: history, pages, filter, settings
--   SetupProgress  web/src/components/setup/SetupProgress.tsx: the estimate from the log, the
--                  polls and the stale notice
--   Files          web/src/pages/Files.tsx: Browser (drives, path, listing), Transfers (the
--                  progress of uploads), Sorting (the order of the listing)
--   Migration      web/src/hooks/useMigrationStatus.tsx: polls, broadcasts, the percentage
--   Drives         web/src/pages/Drives.tsx: tags, the slider, `checkArchive`, Process
--                  (the processing of clips), Listing (the list as shown)
--   Wav            web/src/pages/LockChime.tsx: `encodeMonoWav` from the 16-bit samples on
--   SizeInput      web/src/components/setup/steps/StorageStep.tsx: `SizeInput`
--   ConfFile       web/src/components/setup/steps/WelcomeStep.tsx: `parseConfFile`, `maskValue`
--   Support        web/src/pages/Support.tsx: the chat, its polls, its texts, sending
--   Settings       web/src/pages/Settings.tsx, web/src/components/settings/PrivacyCard.tsx: Ble,
--                  Update, Install, Controls, Devices, SpeedTest, RawConfig, AwayControl,
--                  Backup, Privacy, each a card of the page
--   LockChime      web/src/pages/LockChime.tsx: Library, Random (the random mode), Pages (the
--                  grid), Selection (a chosen file, with the encoder of Wav)
--   Community      web/src/pages/Community.tsx, web/src/pages/CommunityWraps.tsx and the
--                  community tab of web/src/pages/LockChime.tsx: Admin, Wraps, Chimes
--   Terminal       web/src/pages/Terminal.tsx: its sessions and what they print
--   Logs           web/src/pages/Logs.tsx: Scan (the lines of a log), Levels
--   Auth           web/src/hooks/useAuth.tsx, web/src/pages/Login.tsx
--   Dashboard      web/src/pages/Dashboard.tsx: Eta (the time an archive has left)
--
-- Numbers. Times are natural numbers of milliseconds, positions in Draggable integers of half
-- pixels, percentages in Migration exact fractions. The rounding of floating-point numbers is not
-- modelled; the values here are those for which it plays no part. The one fuel is that of the
-- binary search in Telemetry, as many rounds as there are frames, each of which shortens the
-- range, so that it ends before the fuel does. The other loops are structural.
--
-- Not modelled: the server, the shell scripts and the other languages of the repository; JSON
-- and HTTP (a reply is a value, an error or an exception); rendering and styles; the wording of
-- most texts; React's batching beyond the order of state changes; the
-- display of all pages, the upload of a wrap with its 3D preview, the map of the drives, and the
-- requests for a log.
pub mod Base
pub mod Ws
pub mod Connection
pub mod KeepAwake
pub mod AwayMode
pub mod Wizard
pub mod Telemetry
pub mod Draggable
pub mod Viewer
pub mod Uploader
pub mod Notifications
pub mod SetupProgress
pub mod Files
pub mod Migration
pub mod Wav
pub mod SizeInput
pub mod Drives
pub mod ConfFile
pub mod Support
pub mod Settings
pub mod LockChime
pub mod Community
pub mod Terminal
pub mod Logs
pub mod Dashboard
pub mod Auth
