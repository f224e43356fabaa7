-- ===== src/Bridge/Files.antt =====
-- The file system under `publish_pair`: `write_full_file`, `safe_unlink`, `move_to_hold`,
-- `os.replace` and `Path.exists` of fasttrack_file_bridge.py, on one directory. Each operation may
-- fail by a schedule of outcomes, and each state that another process could see is recorded.
use basket_recovery_ea.Base.{
  ℕ, suc, Bool, false, ◌&&◌, Option, none, some, List, [], ◌∷◌, ◌==◌, if◌then◌else◌, is_some, take,
}
use basket_recovery_ea.Base.Text.{Text, text_eq}
use basket_recovery_ea.Bridge.Errors.{os_error}
use basket_recovery_ea.Bridge.Action.{Action, returned, raised, pure, ◌>>=◌}

-- `root / name`, `name.hold.<uuid>` and `name.part.<uuid>`; no file is named like the last two
-- unless this code made it.
pub data FilePath : Type 0 where
  final : Text → FilePath
  hold part : Text → ℕ → FilePath

unfoldable pub path_eq : FilePath → FilePath → Bool
path_eq (final a) (final b) = text_eq a b
path_eq (hold a i) (hold b j) = text_eq a b && i == j
path_eq (part a i) (part b j) = text_eq a b && i == j
path_eq _ _ = false

abbrev pub Files : Type 0
Files = FilePath → Option Text

-- What becomes of an operation: it is done, it raises and changes nothing, or (a write) it raises
-- with the first bytes written.
pub data Outcome : Type 0 where
  done refused : Outcome
  torn : ℕ → Outcome

pub record World : Type 0 where
  pub files : Files
  -- the outcomes of the operations to come; past its end each is `done`
  pub schedule : List Outcome
  -- the supply of `uuid4` values
  pub next_uuid : ℕ
  -- the states of the directory, latest first
  pub seen : List Files

-- A directory before a publication.
abbrev pub directory : Files → List Outcome → ℕ → World
directory fs outcomes n = record { files = fs; schedule = outcomes; next_uuid = n; seen = [] }

abbrev pub Io : Type 0 → Type 0
Io = Action World

abbrev pub update : Files → FilePath → Option Text → Files
update fs p v q = if path_eq p q then v else fs q

-- One operation: `complete` is what it does when done, `partial` what a torn write leaves.
abbrev outcome_of : List Outcome → Outcome
outcome_of [] = done
outcome_of (o ∷ os) = o

abbrev outcomes_after : List Outcome → List Outcome
outcomes_after [] = []
outcomes_after (o ∷ os) = os

abbrev stored : Files → World → World
stored fs w = record w { files = fs; schedule = outcomes_after w.schedule; seen = fs ∷ w.seen }

by_outcome : Outcome → Files → (ℕ → Files) → Io (Unit {0})
by_outcome done complete partial w = (returned tt, stored complete w)
by_outcome refused complete partial w = (raised os_error, stored w.files w)
by_outcome (torn k) complete partial w = (raised os_error, stored (partial k) w)

-- `os.replace(source, target)`; a missing source is a `FileNotFoundError`.
unfoldable pub replace : FilePath → FilePath → Io (Unit {0})
unfolding by_outcome path_eq
replace source target w =
    let moved = update (update w.files target (w.files source)) source none in
    if is_some (w.files source)
    then by_outcome (outcome_of w.schedule) moved (λ _. w.files) w
    else (raised os_error, stored w.files w)

-- `write_full_file(path, content)`: the file is opened, written and flushed.
unfoldable pub write_full_file : FilePath → Text → Io (Unit {0})
unfolding by_outcome path_eq
write_full_file path content w =
    by_outcome (outcome_of w.schedule) (update w.files path (some content))
      (λ k. update w.files path (some (take k content))) w

-- `path.exists()`
abbrev pub exists : FilePath → World → Bool
exists path w = is_some (w.files path)

unfoldable pub unlink : FilePath → Io (Unit {0})
unfolding by_outcome path_eq
unlink path w = by_outcome (outcome_of w.schedule) (update w.files path none) (λ _. w.files) w

-- `safe_unlink(path)`
unfoldable pub safe_unlink : FilePath → Io (Unit {0})
unfolding unlink
safe_unlink path w = if exists path w then unlink path w else (returned tt, w)

abbrev fresh : World → World
fresh w = record w { next_uuid = suc w.next_uuid }

-- `move_to_hold(path)`
unfoldable pub move_to_hold : Text → Io (Option FilePath)
unfolding replace
move_to_hold name w =
    if exists (final name) w
    then (replace (final name) (hold name w.next_uuid) >>= λ _. pure (some (hold name w.next_uuid)))
        (fresh w)
    else (returned none, w)

-- `final.with_name(f"{name}.part.{uuid4().hex}")`
abbrev pub new_part : Text → Io FilePath
new_part name w = (returned (part name w.next_uuid), fresh w)
