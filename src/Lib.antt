-- ===== src/Lib.antt =====
-- A model of swayr, the window switcher for the sway window manager: the daemon swayrd, which watches
-- sway's events and runs the commands that clients send to it, and swayrbar, the status bar.
--
-- How the parts interact. swayrbar shares only swayr/src/shared with the daemon. Its threads for the time,
-- for clicks and for sway's events send refresh events to the main thread, which asks every module for its
-- block: a module reads its part of the machine again if the event is its own, and otherwise shows the text
-- that it has cached.
-- The daemon runs four threads over shared focus data. The monitor numbers
-- sway's window and workspace events, enters and removes nodes, and sends a focus event over a channel.
-- The lock-in thread receives it and sets the tick of the node once the focus has stayed for the delay,
-- or once a sequence of window cycling commands ends. The auto-nop thread ends a forgotten sequence. The
-- thread that serves clients runs their commands: it asks sway for the tree of nodes, sorts windows by
-- urgency and tick, lets the user choose in a menu program or computes the target, and sends commands to
-- sway.
--
-- The files, and the code they are about (paths from the repository's root):
--   Base: Rust's Option, slices, panics and HashMap, as far as the program uses them. Outcome is code
--     that may panic, Exec code that also changes a state.
--   Swayipc: the types of the crate swayipc that are read. Wire: a session with sway. It is a parameter:
--     what sway answers to the n-th question is arbitrary, and the commands sent are recorded.
--   Config: swayr/src/config.rs, the sections, the defaults and the getters.
--   Ipc: swayr/src/shared/ipc.rs, NodeMethods::get_type and the other methods, and NodeIter::next.
--   Focus: swayr/src/focus.rs, FocusData with update_last_focus_tick, ensure_id and send.
--   Layout: swayr/src/layout.rs, auto_tile in Layout.Tiling, relayout_current_workspace in
--     Layout.Relayout.
--   Daemon: swayr/src/daemon.rs. LockIn is focus_lock_in_handler as a state machine, Events the handlers
--     of events, Monitor the loop of monitor_sway_events, AutoNop the thread of serve_client_requests,
--     Serve the loop over the clients, with swayr/src/client.rs, and System the interleavings of the
--     threads as a step relation.
--   Tree: swayr/src/tree.rs, get_tree and the walks to ancestors in Tree.Build, the lists of entries
--     and get_indent_level in Tree.Listing, format_for_display in Tree.Display with the arms of its
--     substitution in Tree.Arms.
--   Criteria: swayr/src/criteria.rs, the grammar in Parser and eval_criterion in Eval. Regular
--     expressions are a parameter (Externs).
--   Util: swayr/src/util.rs, select_from_menu. Util.Icons is the search for icons in the desktop files,
--     with the cache of get_icon; the file system is the parameter Files. Util.Paths is what it uses of
--     std's paths, and get_swayr_socket_path.
--   Cfg: swayr/src/shared/cfg.rs, load_config and save_config over a disk of files and directories.
--   Fmt: swayr/src/shared/fmt.rs, FmtArg, rt_format, remove_last_n_chars and maybe_html_escape;
--     Fmt.Placeholders is PLACEHOLDER_RX and the macro subst_placeholders. Floats and the crate that formats
--     a value are parameters.
--   Cmds: swayr/src/cmds.rs. Exec is exec_swayr_cmd with the locks of its statics, Matching
--     focus_urgent_or_matching_or_lru_window, Direction and Walk the next and previous commands,
--     SwitchTo the commands over both, Tiling the tile and tab commands, Select, Run and Swaymsg the
--     commands over the menu.
--   Bar: swayrbar/src. Config is config.rs, Module module.rs, and Window, Battery, Pactl, Nmcli, Date and
--     Sysinfo are the files of module/, with their default configurations in Defaults. Status is
--     generate_status over the modules of bar.rs, Clicks handle_input, Events handle_sway_events. What the
--     modules read (the output of programs, batteries, the time, sway's tree) is arbitrary: Outside.
--   Examples: a small tree and short runs, at which the theorems are applied.
--
-- Bounds and fuel. Ticks and the event counter are u64; a step of Daemon.System has the premise that the
-- counter stays below 2 ^ 64, and the monitor's counter wraps. Widths are integers in place of f32, which
-- agree below 2 ^ 24. The iterator has the number of nodes as fuel, which it needs at most. The walk to an
-- ancestor has the number of nodes as fuel, one more than any path has edges; the indentation level and
-- the sorted subtrees likewise. The parser of criteria has one more than the length of the text, which is enough:
-- Criteria.Parser.Fuel. A turn of the
-- switching commands has fuel 2, since it calls itself at most once, and so has exec_swayr_cmd, since
-- its call of itself stops at the lock. The menu of configure_outputs has fuel for the rounds that the
-- user makes. Locking a mutex that the same thread holds is modelled as a panic: std promises only that
-- it does not return.
--
-- Not modelled: the start of the menu program and of the threads, the sockets, logging, the pauses between
-- commands, and the ticker of swayrbar, whose main loop takes the events in the order in which they arrive.
-- The commands take the text of an entry as a parameter, next to that of a command's Debug form, the random
-- choices and sway's outputs (Env);
-- format_for_display itself stands apart, in Tree.Display, since it also fills the cache of icons.
pub mod Base
pub mod Swayipc
pub mod Wire
pub mod Config
pub mod Ipc
pub mod Focus
pub mod Layout
pub mod Daemon
pub mod Tree
pub mod Criteria
pub mod Util
pub mod Fmt
pub mod Cfg
pub mod Cmds
pub mod Bar
pub mod Examples
