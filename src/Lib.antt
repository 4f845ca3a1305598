-- ===== src/Lib.antt =====
-- Nagi Shell: the notification runtime, the KWin observer, the audio bridge, the brightness helper, the
-- observer of games and power profiles, the protocol of Easy Effects, and the settings files of the native
-- part of the shell. The shell itself is
-- QML; under src/ it has one native program or plugin for each service. The plugins live in the shell's
-- process and are called from it. The helpers are processes of their own, which read commands from
-- their arguments and standard input, talk to PipeWire or D-Bus, and print JSON.
--
-- The parts, and the files that model them:
--
-- * src/notifications/runtime.h and runtime.cpp, the class NotificationRuntime. Notifications/Types has
--   its fields and records; the hash of live associations is a list with the newest first
--   (Notifications/Live), the history a list in the order of the vector (Notifications/History).
--   Normalize reads a notification object, Scheduler is armScheduler, Operations the private functions
--   that the handlers share, Replacement the queued updates, Admission the generations and the
--   admission of notifications, Runtime the other handlers, the constructor, and `step`, which runs one
--   call of the shell or of the event loop. A handler is a function from the object to the object; a
--   function with a result and an effect returns both. Function names are those of the source in
--   another spelling: admitFresh is admit_fresh.
-- * src/notifications/notification_text.cpp is Notifications/Text, over UTF-16 code units.
-- * src/kwin-virtual-desktops/desktop_snapshot.h and desktop_snapshot.cpp are Kwin/Snapshot, and main.cpp
--   there, the class WorkspaceConsensusObserver, is Kwin/Observer: the object and the script that it loads
--   in the file itself, the input in Commands, the owner, the callback and the events in Events. Scripts
--   counts the scripts that are left in KWin, by the calls that were made.
-- * src/pipewire-audio/protocol.h and protocol.cpp are Audio/Protocol, volume.cpp is Audio/Volume, and
--   main.cpp, the class PipeWireBridge, is Audio/Bridge: Bindings has the bound nodes and the roles that
--   point to them, Requests the commands and what becomes of them, Events the callbacks of PipeWire. A
--   pointer to a binding is the number that the binding got when it was allocated.
-- * src/brightness/main.cpp, the class BrightnessBridge, is Brightness: Requests has the published states
--   and the requests, Snapshots refreshSnapshot, Events the signals, the commands and the owner.
--   Answers is what a request is told at once, Accounts what becomes of those that wait.
-- * src/gaming-performance/main.cpp, the class GamingPerformanceObserver, is GamingPerformance: Attachments
--   has the owners and the signals that are connected, Events the slots and initialize. Sources is not
--   code: it is the specification, in which GameMode and the power profiles are there or not, and are
--   followed without anything left over from a source that is gone; Refinement shows that what the
--   observer prints is what they are. The history begins with initialize: a signal that is delivered
--   before the timer that calls it is not in the model.
-- * src/easyeffects-status/protocol.h and protocol.cpp are EasyEffects/Protocol.
-- * src/settings/main.cpp is Settings: Disk is the configuration directory, Files reads and replaces one
--   file, Operations has performOperation, Input the standard input, Main the inspection and main.
-- * Json has the values of Qt's JSON classes, which the protocols read, and Bytes the lines of a buffer,
--   as the helpers take them from their input.
--
-- What is outside is a parameter. The record World holds what a notification object, its methods
-- and the clock answer during one event: whether the object is alive, its properties, whether its
-- methods expire and dismiss are invoked, and whether closeNotification is called before they
-- return. The handlers of the runtime's signals are assumed not to call it back. The records PipeWire,
-- Kwin/Observer's Session, Brightness's Session and GamingPerformance's Buses do the same for the helpers: each event of a history
-- comes with the answers that it gets, and nothing relates the answers of two events, unless a theorem
-- names it. A call that blocks is assumed to let no other event in. Qt's XML reader is given by its
-- tokens, and Qt's JSON parser and printer and its UTF-8 encoder, its decoder, its number printer and its
-- Unicode database by functions, and so is the arithmetic of floating-point numbers. The system calls of
-- the settings helper take their results from a sequence, so that each may fail, and a read or a write may
-- move a part only; nothing else is assumed to write to the directory meanwhile.
--
-- Numbers: sequence numbers keep their 64-bit limits, transient revisions, timer intervals and the
-- brightness helper's generation their 31 bits. Times are naturals without a limit, so a timeout near the
-- limit of 64 bits is outside the model, as is the audio bridge's count of readbacks beyond 31 bits, and
-- doubles are what the code asks of them (finite, integral, compared with integers). The loop of
-- boundedNormalized takes the length of its text as fuel; each round consumes one code unit at least, so
-- this is enough. The order in which a hash is iterated is that of the list that stands for it.
--
-- Not modelled: the log lines and the roles of the list models; of the helpers the construction of
-- their objects and the signals of the process; of the settings helper the permissions of files and the
-- text that it prints; and the other helpers (connectivity, wallpaper, applications, session,
-- global shortcut, and the process around the protocol of Easy Effects). QML, scripts and
-- tests are other languages.
pub mod Prelude
pub mod Json
pub mod Bytes
pub mod Notifications
pub mod Kwin
pub mod Audio
pub mod Settings
pub mod EasyEffects
pub mod Brightness
pub mod GamingPerformance
