-- ===== src/Bridge/Tests/Classes.antt =====
-- Tests of the grammar and the classes of messages.
use basket_recovery_ea.Base.{◌≡◌, refl, some}
use basket_recovery_ea.Base.Text.{codes}
use basket_recovery_ea.Bridge.Errors.{ok}
use basket_recovery_ea.Bridge.Validation.{
  validate_seed_format, parse_details_header_symbol_direction,
}
use basket_recovery_ea.Bridge.Classify.{
  classify_telegram_text, empty, non_ascii, seed, details, unrecognized,
}
use basket_recovery_ea.Bridge.Tests.Sample.{gold_buy, gold_details}

class_of_seed : classify_telegram_text gold_buy ≡ seed
unfolding classify_telegram_text
class_of_seed = refl

class_of_details : classify_telegram_text gold_details ≡ details
unfolding classify_telegram_text
class_of_details = refl

class_of_blanks : classify_telegram_text (codes " \r\n ") ≡ empty
unfolding classify_telegram_text
class_of_blanks = refl

class_of_chat : classify_telegram_text (codes "hello") ≡ unrecognized
unfolding classify_telegram_text
class_of_chat = refl

class_of_accents : classify_telegram_text (codes "Gold buy now é") ≡ non_ascii
unfolding classify_telegram_text
class_of_accents = refl

seed_parts : validate_seed_format gold_buy ≡ ok (codes "gold", codes "buy")
unfolding validate_seed_format
seed_parts = refl

header_parts : parse_details_header_symbol_direction gold_details ≡ some (codes "gold", codes "buy")
unfolding parse_details_header_symbol_direction
header_parts = refl
