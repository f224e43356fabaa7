-- ===== src/Lib.antt =====
-- Verification of the Telegram integration (integrations/telegram): from a channel's messages to the
-- pair of files that a trading terminal reads, and the arms that allow real files for a short test.
--
-- The program. A handler takes each Telegram message, skips what it has seen, and classifies the text
-- as a seed ("gold buy now") or as details (entry range, stop loss, take profits). The matcher keeps
-- one pending seed for a limited time and finds the seed that details belong to. The publisher writes
-- a matched pair to two files of one directory. The dashboard keeps channels, targets and routes in a
-- database; a route publishes real files only while it is armed, at most one route is armed, for 900
-- seconds and for one publication.
--
-- Parts and files.
--   Base                  lists over the native numbers, Python text and integers
--   Bridge                integrations/telegram/fasttrack_file_bridge.py
--     Errors, Action      exceptions as values, and code that changes a state and may raise
--     Patterns            the regular expressions, as functions that consume text
--     Validation          validate_*, normalize_line_endings, parse_details_header_symbol_direction
--     Classify            classify_telegram_text
--     SignalMeta          build_signal_meta and the prices
--     Fingerprint         pair_fingerprint, raw_message_hash, build_correlation_key
--     Files               write_full_file, safe_unlink, move_to_hold, os.replace on one directory
--     Publisher           the try statement of AtomicPublisher.publish_pair
--     Publish             AtomicPublisher.publish_pair around it
--     Matcher             PendingSeed, PairMatcher, TelegramPairMatcher
--     Handler             TelegramInboundMessage, TelegramMessageHandler
--   CandidateTest         integrations/telegram/candidate_test_arm_service.py
--   Store                 the tables and operations of integrations/telegram/dashboard_store.py on
--                         routes, their arms, their listeners and their events
--   Arming                _arm_candidate_test_route and _disarm_candidate_test_route of
--                         integrations/telegram/dashboard_api.py, and runs of the route operations
--   Listener              integrations/telegram/route_listener_service.py: _process_message on the
--                         database and the runtime of one route
--     Steps               the runtime of a route, and the steps of a message
--     Start               validate_start
--     Channel             canonical_channel_key_from_value of telegram_adapter.py
--     Manager             RouteListenerManager: start_route, stop_route; its state and writes are in
--                         Manager/Writes
--     Delivery            on_new_message, deliver_inbound_message, and the reports on listeners
--     Once                any number of messages, with one arm
--   Store/Channels        the operations on channels, and delete_target
--   Store/Joined          every route has its channel and its target, one table at a time; for all
--                         operations together in Arming/Joined
--   Store/Commands        the commands for the worker in dashboard_store.py
--   Worker                integrations/telegram/listener_worker_runtime.py: commands, heartbeat,
--                         reconnection and shutdown, on the manager and on the table of commands;
--                         the last two in Worker/Connection
--   Mt5                   integrations/telegram/mt5_target_service.py: the identity of a terminal and
--                         the account of a target
--     Conflicts           find_target_conflicts, and the rows with the account of a probe
--     Status              evaluate_config_match, derive_*, _collect_warnings, project_mt5_target
--     Registration        the registration of targets, their filters, pages and discovery
--     Discovery           create_target_from_discovery
--     Insertion           _validate_target_core and create_target of dashboard_store.py
--     Verify              the status that verify_target derives from a probe
-- The modules below a part hold its proofs and are named for what they prove; Bridge/Tests,
-- Arming/Tests, Listener/Tests, Worker/Tests and Mt5/Tests run the definitions on concrete inputs.
--
-- How the state corresponds. A text is a list of code points. An object with attributes is a record,
-- a method takes the record and gives the new one; a set is a list, latest first. An operation of the
-- file system takes its outcome from a schedule: done, refused, or (a write) torn with a prefix
-- written; past the schedule's end each is done. Every state of the directory between two operations
-- is recorded, so that a property can speak of what another process sees. A method that raises keeps
-- the changes made before it. A database operation is one transaction.
--
-- Parameters. The SHA-256 digest, float(), the UTC date, the resolution of paths against the root and
-- the order in which a set is iterated are arguments. Times are natural numbers: nanoseconds for the
-- monotonic clock of the matcher and seconds for the database, read where the code reads them (an arm
-- request and each half of the processing of a message have one reading for the database).
--
-- What becomes of a target's directory at a start, what the start of the Telethon client returns, and
-- Path.resolve and Path.name on the storage paths of targets, and the id that the database gives a
-- new target, are arguments too. Of a channel the model keeps the columns that routes and listeners
-- read. Each runtime has its directory for itself: two routes with one directory are not modelled.
-- Calls of the manager come one after the other, as under its lock. A start, a stop, a command and a
-- report have one reading of the clock.
--
-- The logger is that of the route listeners, BridgeLogger() without a log file: it prints, and every
-- line can be written. A log file that cannot take a line with the two file names is an argument of
-- publish_pair_logged.
--
-- Bounds. The loops over lines, messages and rows are structural. The digits of a number are written
-- on a fuel of the number itself plus one, which is never used up since each step divides by ten.
--
-- Not modelled: the text of log lines, JSON, sockets and HTTP, Telethon, the SQL of other tables, the
-- file name "." (which validate_basename lets through), letters beyond ASCII in lower() and upper(),
-- and what lies outside integrations/telegram.
pub mod Base
pub mod Bridge
pub mod CandidateTest
pub mod Store
pub mod Arming
pub mod Listener
pub mod Worker
pub mod Mt5
