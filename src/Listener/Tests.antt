-- ===== src/Listener/Tests.antt =====
-- Runs of the listener on a small database.
use basket_recovery_ea.Base.{◌↔◌, refl, true, none, some}
use basket_recovery_ea.Store.Tables.{Database}
use basket_recovery_ea.CandidateTest.{
  observer_only_no_real_publish, evaluate_real_publish_permission,
}
use basket_recovery_ea.Store.Arms.{RouteDetail, get_route_detail, get_route_start_context}
use basket_recovery_ea.Bridge.Tests.Sample.{
  gold_details, sample_settings, new_handler, waiting_matcher, clock_at, message,
}
use basket_recovery_ea.Arming.Tests.{small_database, just_gold, demo_target, plain_route}
use basket_recovery_ea.Listener.{Session, Moment, process_message}
use basket_recovery_ea.Listener.Guard.{Silent, blocked-Silent}
use basket_recovery_ea.Listener.Start.{validate_start, allowed, may_start, validate_start_lem}
use basket_recovery_ea.Base.{arith, [], ◌∷◌, false, ◌≡◌, suc, ◌+◌, ◌≤◌, List}
use basket_recovery_ea.Base.Int.{pos, negsuc}
use basket_recovery_ea.Bridge.Handler.{TelegramInboundMessage}
use basket_recovery_ea.Bridge.Tests.Sample.{gold_buy}
use basket_recovery_ea.Listener.Once.{process_all, count_published-process_all}
use basket_recovery_ea.Listener.Channel.{
  canonical_channel_key, canonical_channel_key_from_text, telegram_channel_peer_offset,
  canonical_channel_key_peer_agrees,
}
use basket_recovery_ea.Base.Text.{Text, text_eq, codes}
use basket_recovery_ea.Base.Int.{show_int}
use basket_recovery_ea.Bridge.Classify.{classify_telegram_text}
use basket_recovery_ea.Bridge.Validation.{
  validate_details_text, validate_basename, validate_pair_payload,
  parse_details_header_symbol_direction,
}
use basket_recovery_ea.Bridge.Fingerprint.{raw_message_hash, pair_fingerprint}
use basket_recovery_ea.Bridge.SignalMeta.{build_signal_meta}
use basket_recovery_ea.Bridge.Publisher.{publish_files}
use basket_recovery_ea.Bridge.Publish.{publish_pair, is_published}
use basket_recovery_ea.Bridge.Matcher.{ingest_telegram_details, find_seed_for_details}
use basket_recovery_ea.Bridge.Handler.{handle, is_seen, message_key}
use basket_recovery_ea.Store.Arms.{arm_row}
use basket_recovery_ea.Store.Listeners.{upsert_route_listener_state, add_route_event}
use basket_recovery_ea.Listener.{count_published, record_publish_success}
use basket_recovery_ea.Bridge.Matcher.{unregister_seed}
use basket_recovery_ea.Bridge.Validation.{parse_details_header_symbol_direction}
use basket_recovery_ea.Listener.{consume, report_published}
use basket_recovery_ea.Store.Arms.{consume_candidate_test_publish}
use basket_recovery_ea.Store.Listeners.{update_route_publish_status}
use basket_recovery_ea.Listener.Consumed.{published-disarms}
use basket_recovery_ea.Listener.Rows.{is_armed}

-- A route that only observes, with a seed that waits.
abbrev observing : Session
observing = record {
  db = small_database;
  runtime = record {
    route_id = 1;
    target_id = 1;
    handler = record new_handler { matcher = waiting_matcher };
    seen_raw_hashes = [];
  };
}

abbrev moment : Moment
moment = record { clock = clock_at 5; now = 100; later = 101 }

abbrev detail : RouteDetail
detail = record { route = plain_route 1; channel = just_gold; target = demo_target }

blocked-Silent_example :
    Silent waiting_matcher
      (process_message sample_settings
        (λ known. none)
        (message 2 gold_details none)
        moment
        observing).1.runtime.handler.matcher
unfolding get_route_detail evaluate_real_publish_permission
blocked-Silent_example =
    blocked-Silent sample_settings (λ known. none) (message 2 gold_details none) moment observing
      detail observer_only_no_real_publish refl refl refl

validate_start_lem_example : (validate_start 1 small_database ≡ allowed detail) ↔ (
    (get_route_start_context 1 small_database ≡ some detail)
    × (may_start small_database.is_connected detail ≡ true))
validate_start_lem_example = validate_start_lem 1 small_database detail

-- An armed route, with a seed that waits.
abbrev armed_database : Database
armed_database = record small_database {
  routes = arm_row 0 900 (codes "local_operator") 0 (plain_route 1) ∷ [];
}

abbrev listening : Session
listening = record observing { db = armed_database }

abbrev short_details : Text
short_details = codes "gold buy now 1"

abbrev processed : Session
processed =
    (process_message sample_settings (λ known. none) (message 2 short_details none) moment
      listening).1

one_published : count_published processed ≡ 1
unfolding process_message handle is_seen classify_telegram_text raw_message_hash text_eq message_key
    show_int upsert_route_listener_state add_route_event get_route_detail
    evaluate_real_publish_permission ingest_telegram_details validate_details_text
    find_seed_for_details publish_pair validate_basename validate_pair_payload pair_fingerprint
    build_signal_meta is_published publish_files record_publish_success
    parse_details_header_symbol_direction unregister_seed consume consume_candidate_test_publish
    report_published update_route_publish_status
one_published = refl

published-disarms_example : is_armed 1 processed.db.routes ≡ false
unfolding get_route_start_context
published-disarms_example =
    published-disarms sample_settings (λ known. none) (message 2 short_details none) moment
      listening
      (record {
        route = arm_row 0 900 (codes "local_operator") 0 (plain_route 1);
        channel = just_gold;
        target = demo_target;
      })
      refl refl (ground (arith, one_published))

-- Two messages on the armed route, the second of which would be a second publication.
abbrev messages : List (TelegramInboundMessage × Moment)
messages =
    (message 2 short_details none, moment)
    ∷ (message 3 gold_buy none, moment)
    ∷ (message 4 gold_details none, moment)
    ∷ []

count_published-process_all_example :
    count_published (process_all sample_settings (λ known. none) messages listening)
    ≤ suc (count_published listening)
unfolding get_route_start_context
count_published-process_all_example =
    count_published-process_all sample_settings (λ known. none) messages listening refl refl

canonical_channel_key_peer_agrees_example :
    canonical_channel_key_from_text (show_int (pos 7))
    ≡ canonical_channel_key (negsuc (telegram_channel_peer_offset + 6))
canonical_channel_key_peer_agrees_example = canonical_channel_key_peer_agrees 6
