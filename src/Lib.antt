-- ===== src/Lib.antt =====
-- filewall: a daemon that asks before a process may open a guarded file. This library models the
-- Rust program and proves what its parts promise. Paths below are from the repository's root.
--
-- The parts and how they meet. The configuration (filewalld/src/config.rs, Config) is built into
-- a policy of watches (filewalld/src/policy.rs, Policy). Each watch is scanned for directories
-- (scan_watch and walk_dirs of filewalld/src/main.rs, Walk), which are marked and recorded
-- (filewalld/src/markset.rs and mark_all, Marks), and followed as they grow
-- (filewalld/src/treewatch.rs, TreeWatch). The kernel's events are parsed
-- (filewalld/src/fanotify.rs, Fanotify) and handled one by one (event_loop of
-- filewalld/src/main.rs, Daemon; a whole turn with polling and reload is Daemon/Loop). An access
-- is decided by its watch and by the learned rules (filewall-rules/src/lib.rs, Rules; the file
-- on disk is Rules/Disk), or the user is asked over a socket (filewalld/src/server.rs, Server)
-- in the frames of filewall-proto/src/lib.rs (Proto). The daemon's start is Daemon/Start, its turns
-- in a row are Daemon/Life, and filewalld/src/watcher.rs, which asks for reloads, is Watcher.
--
-- Two programs show the prompts. filewall-ui/src/main.rs has yad show a dialog (Ui). The native one
-- is in filewall-ui-iced/src: the fields of model.rs and what the worker of worker.rs answers (Iced,
-- Iced/Worker), the state of main.rs from message to message (Iced/App), what its window shows and
-- what a press of a button means (Iced/View), and the theme of theme.rs (Iced/Theme). Both serve
-- their link by the same loop, Proto/Serve, and get the next one as in Proto/Serve/Reconnect;
-- Iced/EndToEnd puts the link, the worker and the window together, and Daemon/Click the daemon with
-- them. Daemon/Guarded follows the configuration from the start to marks and answers, and
-- Daemon/Reload from a reload; Ctl/Race sets a removal by filewallctl beside an answer of the user.
-- filewallctl/src (Ctl) lists, removes and reports: the dispatch of main.rs is Ctl/Main, what
-- it prints Ctl/Tables, the layout of tables in render.rs Ctl/Render, and a dump is asked for over
-- filewalld/src/control.rs (Control). FilePath is what the program uses of std::path, and Prelude
-- what the modules share. Examples holds concrete inputs, and Tests the repository's own unit tests.
--
-- Some parts have an abstract view: the rules are a collection with no order, a quotient of lists
-- (Rules/Unordered), on which Ctl/Promise says what learning and removing do; the marks are a map
-- from paths (Marks/Lookup) and the scope of the watches (Marks/All/Scope); the directories of a walk
-- are those that are reached (Walk/Reach).
--
-- State is passed on: a method that changes its object returns the new one, and a step of the
-- daemon takes a record of its state and of what the machine answers meanwhile. Texts are lists of
-- code points, and a text is taken to be UTF-8. Numbers are unbounded, but where the program's own
-- width matters the wrap-around or the bound is written out.
--
-- Parameters stand for what is not in the repository: TOML and JSON (with their round trip as a
-- hypothesis), globset (a set matches where one of its globs does), the file system, the
-- environment, the clock, inotify, fanotify marks, signals, and yad.
--
-- Fuel. walk_dirs runs on the size that the file system gives to its root, which bounds the
-- directories below it in a finite tree; that this is enough is part of the theorem on it. The
-- parser of fanotify events runs on the number of bytes that were read, and each event takes at
-- least 24 of them; that of an event's records on the length of the event. The loop that serves a
-- prompt link runs on the length of what is received, since each request takes at least four bytes,
-- and the loop around it on the number of the attempts to connect, which give one link each at most.
--
-- Not modelled: logging, the installation of the signal handler, the timeouts of the control socket,
-- the removal of socket files at the end, and the layout and the colours of the windows.
pub mod Prelude
pub mod FilePath
pub mod Rules
pub mod Proto
pub mod Policy
pub mod Server
pub mod Daemon
pub mod Config
pub mod Walk
pub mod Marks
pub mod TreeWatch
pub mod Ctl
pub mod Fanotify
pub mod Ui
pub mod Examples
pub mod Control
pub mod Iced
pub mod Watcher
pub mod Tests
