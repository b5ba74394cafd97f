-- ===== src/Lib.antt =====
-- Toothkey makes a Linux machine a Bluetooth keyboard. A worker that runs as root captures the
-- physical keyboards through evdev and forwards what is typed to the paired peer, a phone, over the
-- two L2CAP channels of a Bluetooth HID device; a tray asks the worker to take or release the grab,
-- to pause, and to let a new peer pair.
--
-- The program's parts and the files that model them:
--
-- Base: what the modules share. Boolean tests over native numbers, lists, sets without repetition,
-- and texts with Python's methods on them.
--
-- Evdev (keyboard_evdev.py). Evdev/Keys holds the tables KEYCODE_TO_HID and KEYCODE_TO_MOD_BIT,
-- keys being constructors with evdev's names. Evdev/Report is KeyboardGrabber._build_report, and
-- how a boot protocol host reads the ten bytes. Evdev/Events is _on_key_event: the state is the
-- keys held (_mods, _keys), the muting and the stop event, and each event gives the new state and
-- what is sent or called. Evdev/Devices is is_text_keyboard, _ineligible_reason, discover_keyboards
-- and describe_input_devices (Evdev/Devices/Probe) over a table of the process's open and grabbed
-- descriptors. Evdev/Grabber is start, stop, _release_all, _rescan and _drop_device;
-- Evdev/Grabber/Loop is the reader thread _run, round by round, what select, the devices and the
-- other threads do being given.
--
-- Policy (keyboard_handler.py, common.py). Policy/Capture is the interface of the capture layer, as
-- a record of operations and laws. Policy/Handler is ToothkeyKeyboardHandler over any such layer,
-- each class method one step under the class lock, beside the rounds of the reader thread and the
-- two assignments, under no lock, at the end of a paste; Policy/Handler/Reachable has the step
-- relation, Policy/Handler/Phases a machine of three phases as its specification, and
-- Policy/Grabbers fills the interface with the model of Evdev.
--
-- Paste (keyboard_handler.py, keyboard_hid_usage_id_map.py and .json). Paste/Chars is _char_to_hid,
-- with Python's str.isalpha and str.lower as parameters that are known on ASCII. Paste/Typing is
-- the loop of _do_clipboard_paste, read by a host with the US layout in Paste/Typing/Host.
-- Paste/Clipboard is _read_desktop_clipboard over what the helper programs do.
--
-- Bluetooth (bluetooth_handler.py). Bluetooth/Hid is _handle_control_transaction, _watch_connection
-- and _phantom_session_watchdog. Bluetooth/Session is wait_for_client, _drop_client,
-- disconnect_client, pause_client, unpause_client, stop and _safe_send over the class attributes
-- and a table of the peer's open sockets. Bluetooth/Reconnect is the loop of
-- _reconnect_watchdog_loop with the page of a turn and what follows it, and Bluetooth/Paging what a
-- page does: _try_outbound_reconnect, _hold_sdp_socket, and _try_open_hid_outbound, which makes
-- three attempts at most. Bluetooth/Bluez has the short calls of BlueZ and of programs, from
-- _is_adapter_powered to _initiate_pairing, and the order of the programs of prepare_adapter.
-- Bluetooth/Sender is the queue of HID reports with the thread that sends them, in steps that the
-- callers and a drop of the client may come between. Bluetooth/Keepalive is _keepalive_loop, and
-- Bluetooth/Peer the name of the peer and the cache of its address; Bluetooth/Signals is
-- on_props_changed as far as the watchdog hears of it.
--
-- Adapter (bluetooth_handler.py). Adapter/Uuids has the UUIDs and the tables about them, as texts
-- of code points; Adapter/Pollution is _adapter_pollution_reasons and _attribute_pollution, down to
-- the wording that the second searches the first for; Adapter/Hijack is
-- _check_call_audio_hijack_risk over the lines of BlueZ's main.conf; Adapter/Class is
-- set_class_of_device and _verify_class_of_device, Adapter/Bringup the waits for the adapter and
-- its power, and Adapter/Noplugin the reading of bluetoothd's command line; Adapter/Obex is
-- _owner_uid and the programs that quiet_obex_daemons runs. Adapter/Initialize puts initialize
-- together, with the calls to BlueZ, the programs and the files that can make it raise.
--
-- Profile (bluetooth_profile.py). Profile/Agent is what ToothkeyAgent answers to BlueZ, and
-- Profile/Registration the registration of the agent and the profile, with the descriptor that
-- BlueZ hands over.
--
-- Pairing (bluetooth_handler.py). Pairing/Window is set_pairing_mode, pairing_secs_left, the expiry
-- thread and _apply_initial_pairing_mode; Pairing/Attempts is _classic_pairing_candidate,
-- _pair_attempt_allowed and on_interfaces_added; Pairing/Throttle is _tlog_throttled.
--
-- Worker (worker.py). Worker/Commands is _command_reader, command by command and to each of its
-- endings, _serve_tray, _current_state, _run_connection_session and the exit code of main, over the
-- models of Policy, Bluetooth and Pairing; what the other threads do between two lines is a
-- function. Worker/Poller is _state_poller. Worker/Startup is _setup_server_socket, _bt_main and
-- main, Worker/Link is _tray_link_loop, and Worker/Send is _send, which a tray's going may come
-- between.
--
-- Tray (tray.py). Tray/View is what the icon, the menu, the tooltip and the indicator show of a
-- state; Tray/Handlers is every handler of the class Tray, as a function to the new state of the
-- tray and what it does outside; Tray/Reachable has the step relation. Tray/Told joins the tray
-- with the models of the worker and the keyboard handler, and Tray/Polled with the poller.
-- Tray/Link is WorkerLink, Tray/Restart what _spawn_restart starts, in which environment, and
-- Tray/Startup is main.
--
-- Logs (logging_setup.py, tray.py, worker.py). Logs/Rotate is rotate_if_large over a directory,
-- where any call may fail, and Logs/Tee is the reader of install. Logs/Install is what install and
-- _drain_on_exit make of the process's descriptors, with the kernel giving out the lowest that is
-- free, and _excepthook; Logs/Open is _open_log with the owner of the file; Logs/Diag is _diag of
-- the tray and _wdiag of the worker, with their _diag_rotate.
--
-- Window (x11_window_hints.py) is skip_taskbar_and_pager, over the state property of a window.
--
-- Hci (hci_monitor.py). Hci/Decode is decode_hci_event and decode_packet, up to the wording of the
-- summary; Hci/Decode/Packets lays the packets out as the Bluetooth specification does.
--
-- Loops run over the list of what happens in their rounds, so they need no fuel: a loop whose list
-- is used up is still waiting. Monotonic times are milliseconds, as native numbers, and
-- descriptors, addresses, names and dictionary keys are numbers that are only compared; where the
-- program looks into a text (Adapter, Profile, Worker/Startup, Bluetooth/Peer), it is the list of
-- its code points.
--
-- The UUIDs that BlueZ gives are taken to be ASCII, where str.lower is a shift of the letters.
--
-- Not modelled: the painting, the placing and the set-up of the Qt widgets, whose coordinates and
-- pixels are Qt's; main of hci_monitor.py, which ends before its loop because its bind fails;
-- main.py, proc_title.py and tools/kbd_selftest.py, which call what is modelled or libraries and
-- keep no state; _log_adapter_class, _stringify and the log lines of _subscribe_to_device_events,
-- which only describe; and of what is modelled the log lines, the D-Bus calls that only tell BlueZ,
-- and exceptions that the code catches to log.
pub mod Window
pub mod Adapter
pub mod Profile
pub mod Base
pub mod Evdev
pub mod Paste
pub mod Policy
pub mod Bluetooth
pub mod Pairing
pub mod Worker
pub mod Tray
pub mod Logs
pub mod Hci
