-- ===== src/Lib.antt =====
-- webuiboot, a UEFI boot menu on the screen and on the network: a model of the parts that decide.
--
-- The program is one image. `src/main.rs` first calls `check_and_process_bootnext` (`src/boot.rs`),
-- which boots the next path of a queue on the disk, and then runs two tasks, the screen and the
-- network, in the executor of `src/executor.rs`. They sleep in the futures of `src/futures.rs`. The
-- network task answers requests by `handle_http_request` (`src/web.rs`); a selection there or on
-- the screen ends in `boot_os` or `boot_linux_direct` (`src/boot.rs`). Messages go to the logger of
-- `src/main.rs`.
--
-- Files:
-- - Executor: `src/executor.rs`. The record `State` joins the fields of `Executor` and the statics
--   of the module; `spawn`, `run_once`, `wake_waker`, `register_event_for_current_task` have the
--   names of the source, and Executor/Loop has `wait_for_events` and `run`. A future is a
--   parameter: one poll gives the wakers that it calls and the events that it registers, in order,
--   its outcome, and the world. Executor/Invariant and Executor/Preserved are on the
--   well-formedness of the state, Executor/Rounds on what a round polls, Executor/Events on the
--   registrations, Executor/Progress, Executor/Budget, Executor/Waiting, Executor/Awake and
--   Executor/Liveness on the end of `run`, Executor/Lasting on tasks that do not finish,
--   Executor/Stalled on an executor that waits for nothing.
-- - Futures: `src/futures.rs`. One record `Sleep` for the three futures, and one function for each
--   `poll`, made to be the executor's parameter. The timers and the events of the firmware are the
--   record `Timers`, where the event of a packet is none with the default features.
-- - Boot: `src/boot.rs`. Boot/Entry reads an entry file; Boot/Firmware is what the code asks of the
--   firmware, as a record of functions on the machine's state, and a monad of results that lists
--   the requests in `calls`; Boot/Launch is `boot_linux_from_entry_file` and the body of the loop
--   of `boot_os`; Boot/Volumes is `boot_os`, `find_all_entries` and `boot_linux_direct`;
--   Boot/Bootnext is `check_and_process_bootnext`. Boot/Launch/Traces and Boot/Ledger are on the
--   requests that are made.
-- - Web: `src/web.rs`. `httparse` is the function `Parse`, from the bytes of a request to its path
--   and method, and the page that the build includes is an argument.
-- - Network: the body of the loop of `run_network` in `src/main.rs`, up to its sleep. The network
--   stack, the clock and the boots are the record `Net`; `Waiting` has the variables of the pending
--   boot. Network/Task is `run` with that loop, as a task of the executor that sleeps in the
--   futures.
-- - Screen: `src/slint_plat.rs`. Screen itself has the choice of the video mode in
--   `run_event_loop`, and Screen/Start the rest of that function, up to the executor's run.
--   Screen/Ui is one round of `run_slint_ui`, and the rounds, where the record `Host` is what
--   Slint, the logger with its flush, and the boots do to the window and to the frame buffer:
--   Screen/Keys has `get_key_press` and the loop over the keys, Screen/Mouse the loop over the
--   pointers, Screen/Cursor the closure that draws a frame, with a panic as `none`; Screen/Pointers
--   is `pointer_init`; Screen/Ui/Boots is on what a round boots, Screen/Ui/Made on what the calls
--   leave, Screen/Held on the presses and releases. Screen/Pixel is `SlintBltPixel`, Screen/Timer
--   the milliseconds. Screen/Flush joins `force_flush_logs` and `SlintLogger::log`, which call each
--   other.
-- - Logs: `SlintLogger` of `src/main.rs`, on bytes: Logs/Format makes the line, and Logs keeps the
--   texts. A panic is `none`.
-- - Device: `src/net.rs`. The simple network protocol is the record `SimpleNetwork`, on the world.
-- - Startup: `efi_main`, the callbacks and `update_slint_ip` of `src/main.rs`. What the libraries
--   do is the record `Host`, the messages go to the text of Logs, and the event loop is a
--   parameter; a panic and the early return are the cases of `Exit`. Startup/Rules and
--   Startup/Exits are on how it ends; Startup/Debug is `wait_for_gdb` of debug builds.
-- - FakeBootloader: `fake-bootloader/src`, the images of the tests.
-- - Text: the text functions of the standard library that the code uses, on lists of code points,
--   with UTF-8 and decimal numbers. Base: the names and lemmas that all share.
--
-- Numbers: `options_size` wraps at 2 ^ 32 and `ticks` at 2 ^ 64 as the casts of the source do. Task
-- ids do not wrap. The mouse's position is a whole number, as its `f32` is, and a scale is counted
-- in halves. Fuel: `run`, whose loop need not end, where every future finishes after so many polls,
-- has enough with twice the polls that are left, plus two; the logger and the flush of the screen
-- with two levels of calls, by the guard; and the wait for a transmitted buffer with one more than
-- the buffers that the firmware holds.
--
-- Not modelled: log messages and the console's output in `src/boot.rs` and in `run_network`; those
-- of `check_and_process_bootnext` and of `pointer_init` are given where the start-up logs them. An
-- image whose start gives an error may have run, since the firmware gives the exit status of the
-- image: `calls` lists each start with its result. Nor are modelled the closing of protocols other
-- than the file systems'; `Platform::default`, `duration_since_start` and `create_window_adapter`
-- of `src/slint_plat.rs`, which only call the libraries; the harness of the tests, which starts an
-- emulator on the host; the markup and the build.
mod Base
pub mod Text
pub mod Executor
pub mod Boot
pub mod Web
pub mod Logs
pub mod Futures
pub mod Network
pub mod Screen
pub mod Device
pub mod Startup
pub mod FakeBootloader
