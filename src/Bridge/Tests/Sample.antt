-- ===== src/Bridge/Tests/Sample.antt =====
-- A directory, settings and messages for the tests.
use basket_recovery_ea.Base.{ℕ, Bool, false, Option, none, some, List, [], ◌∷◌, if◌then◌else◌, ◌==◌}
use basket_recovery_ea.Base.Int.{ℤ, pos}
use basket_recovery_ea.Base.Text.{Text, codes}
use basket_recovery_ea.Bridge.Files.{FilePath, final, Files, Outcome, World, directory}
use basket_recovery_ea.Bridge.Publish.{Env, Setup, Outlet}
use basket_recovery_ea.Bridge.Matcher.{PendingSeed, Matcher, Settings, Clock}
use basket_recovery_ea.Bridge.Handler.{TelegramInboundMessage, Handler}

abbrev pub seed_file : Text
seed_file = codes "seed.txt"

abbrev pub details_file : Text
details_file = codes "details.txt"

abbrev pub gold_buy : Text
gold_buy = codes "Gold buy now"

abbrev pub gold_details : Text
gold_details = codes "Gold buy now 2650 - 2647\nSL: 2640\nTP: 2655\nTP: open"

abbrev pub nowhere : FilePath → Bool
nowhere p = false

abbrev pub no_files : Files
no_files p = none

-- The directory with an old pair.
abbrev pub old_files : Files
old_files (final (c ∷ name)) =
    if c == b's'
    then some (codes "old seed")
    else if c == b'd'
    then some (codes "old details")
    else none
old_files _ = none

abbrev pub empty_directory : World
empty_directory = directory no_files [] 0

abbrev pub full_directory : List Outcome → World
full_directory outcomes = directory old_files outcomes 0

-- The digest is the text itself, and no number is read.
abbrev pub sample_env : Env
sample_env = record {
  to_float = λ t. none;
  sha256 = λ bytes. bytes;
  utc_date = codes "2026-01-02";
  escapes = nowhere;
}

abbrev pub setup_with : Bool → Setup
setup_with dry = record {
  seed_filename = seed_file;
  details_filename = details_file;
  dry_run = dry;
}

abbrev pub sample_settings : Settings
sample_settings = record { env = sample_env; setup = setup_with false; pair_timeout_seconds = 60 }

abbrev pub outlet_on : World → Outlet
outlet_on w = record {
  publisher = record {
    published_fingerprints = [];
    last_signal_meta = none;
    last_seed_bytes = none;
    last_details_bytes = none;
  };
  world = w;
  log = [];
}

abbrev pub new_matcher : Matcher
new_matcher = record {
  outlet = outlet_on empty_directory;
  pending_seed = none;
  seed_by_grouped_id = [];
  next_serial = 0;
}

abbrev pub new_handler : Handler
new_handler = record { matcher = new_matcher; seen_message_keys = []; seen_raw_hashes = [] }

abbrev pub clock_at : ℕ → Clock
clock_at t = record { at_check = t; at_receipt = t }

abbrev pub message : ℕ → Text → Option ℤ → TelegramInboundMessage
message i t group = record {
  text = t;
  message_id = pos i;
  channel_id = pos 7;
  grouped_id = group;
  reply_to_msg_id = none;
}

abbrev pub stream : List (TelegramInboundMessage × Clock)
stream =
    (message 1 gold_buy (some (pos 5)), clock_at 0)
    ∷ (message 2 gold_details (some (pos 5)), clock_at 1000)
    ∷ (message 1 gold_buy none, clock_at 2000)
    ∷ []

-- A seed that waits, received at time zero.
abbrev pub waiting_seed : PendingSeed
waiting_seed = record {
  serial = 0;
  text = gold_buy;
  message_id = codes "1";
  symbol = codes "gold";
  direction = codes "buy";
  received_at = 0;
  channel_id = codes "7";
  grouped_id = some (codes "5");
  telegram_message_id = some (pos 1);
}

abbrev pub waiting_matcher : Matcher
waiting_matcher = record {
  outlet = outlet_on empty_directory;
  pending_seed = some waiting_seed;
  seed_by_grouped_id = (codes "5", waiting_seed) ∷ [];
  next_serial = 1;
}
