-- ===== src/Runner/Install.antt =====
-- The installation of mongodb-runner in orchestration/mongodb_runner.py: `_pin_dir`,
-- `_install_mongodb_runner`, and `_mongodb_runner_supported`, which tells whether to fall back. What
-- npm, the disk and the installation of Node give are arguments; the state is what was run.
pub mod Pins
pub mod Supported
use drivers_evergreen_tools.Common.{
  ℕ, ◌≡◌, Bool, true, false, ◌&&◌, ◌||◌, not, List, [], ◌∷◌, ◌++◌, Option, none, some, any, leb,
  ◌==◌, if◌then◌else◌, Result, ok, raise,
}
use drivers_evergreen_tools.Common.Exec.{Exec, pure, stop, ◌>>=◌, ◌>>◌}
use drivers_evergreen_tools.Common.Text.{Text, codes}
use drivers_evergreen_tools.Common.Text.Decimal.{span_digits, is_digit}
use drivers_evergreen_tools.Mongodl.Url.{contains}

-- `[\w.-]` for ASCII text.
unfoldable pub is_tail_char : ℕ → Bool
is_tail_char c =
    (leb b'a' c && leb c b'z')
    || ((leb b'A' c && leb c b'Z') || (is_digit c || (c == b'_' || (c == b'.' || c == b'-'))))

all_tail : Text → Bool
unfolding is_tail_char
all_tail [] = true
all_tail (c ∷ s) = is_tail_char c && all_tail s

-- `(?:[.-][\w.-]*)?` up to the end.
unfoldable pub is_tail : Text → Bool
unfolding all_tail
is_tail [] = true
is_tail (c ∷ s) = (c == b'.' || c == b'-') && all_tail s

minor_and_tail : Text → Text × Text → Option Text
unfolding is_tail
minor_and_tail major ([], rest) = none
minor_and_tail major ((d ∷ ds), rest) = if is_tail rest then some (major ++ b'.' ∷ d ∷ ds) else none

behind_major : Text × Text → Option Text
unfolding minor_and_tail
behind_major ([], rest) = none
behind_major ((d ∷ ds), []) = none
behind_major ((d ∷ ds), (c ∷ s)) =
    if c == b'.' then minor_and_tail (d ∷ ds) (span_digits s) else none

without_v : Text → Text
without_v [] = []
without_v (c ∷ s) = if c == b'v' then s else c ∷ s

-- The group of re.fullmatch(r"v?(\d+\.\d+)(?:[.-][\w.-]*)?", version)
unfoldable pub pin_group : Text → Option Text
unfolding behind_major without_v
pin_group version = behind_major (span_digits (without_v version))

pub data Event : Type 0 where
  made_dir : Text → Event
  copied_pins : Text → Event
  ran_npm_ci : Event
  installed_node : Event

pub record Host : Type 0 where
  -- _MR_PIN_DIR
  pub pins : Text
  pub tmpdir : Text
  pub is_dir : Text → Bool
  pub pinned_versions : Text → Result Text (Text × Text)
  pub pin_digest : Text → Result Text Text
  -- On Windows the shim has the suffix ".cmd".
  pub shim_suffix : Text
  pub exists_path : Text → Bool
  pub has_node : Bool
  pub copy_error : Option Text
  -- _npm_ci: its error, before and behind the installation of Node.
  pub npm_ci : Bool → Option Text
  pub install_node : Bool
  pub use_dev_runner : Bool

abbrev pub M : Type 0 → Type 0
M A = Exec (List Event) Text A

event : Event → M (Unit {0})
event e events = (ok tt, events ++ e ∷ [])

module _ (host : Host) where
  abbrev pin_child : Text → Text
  pin_child name = host.pins ++ b'/' ∷ name

  dir_of : Option Text → Text
  dir_of none = pin_child (codes "default")
  dir_of (some name) =
      if host.is_dir (pin_child name) then pin_child name else pin_child (codes "default")

  -- `_pin_dir`
  unfoldable pub pin_dir : Text → Text
  unfolding dir_of pin_group
  pin_dir version = dir_of (pin_group version)

  lifted : {A : Type 0} → Result Text A → M A
  lifted (ok a) = pure a
  lifted (raise e) = stop e

  or_fail : Text → Option Text → M (Unit {0})
  or_fail prefix none = pure tt
  or_fail prefix (some e) = stop (prefix ++ e)

  -- `_npm_ci`
  npm : Bool → M (Option Text)
  unfolding event
  npm own_node = event ran_npm_ci >> pure (host.npm_ci own_node)

  second_try : Text → Bool → M (Option Text)
  unfolding npm
  second_try error false = pure (some error)
  second_try error true = npm true

  retried : Option Text → M (Option Text)
  unfolding second_try event
  retried none = pure none
  retried (some error) = event installed_node >> second_try error host.install_node

  -- The installation in a directory that has none, or with no Node to run it.
  unfoldable pub install_in : Text → Text → M (Unit {0})
  unfolding event or_fail npm retried
  install_in pins_of dir =
      event (made_dir dir)
      >> event (copied_pins pins_of)
      >> or_fail (codes "could not copy pin set from " ++ (pins_of ++ codes ": ")) host.copy_error
      >> npm false
      >>= retried
      >>= or_fail (codes "could not install mongodb-runner: ")

  abbrev pub install_dir : Text × Text → Text → Text
  install_dir (runner_version, driver_version) digest =
      host.tmpdir
      ++ (codes "/mongodb-runner-"
          ++ (runner_version ++ (codes "-mongodb-" ++ (driver_version ++ b'-' ∷ digest))))

  abbrev pub runner_bin : Text → Text
  runner_bin dir = dir ++ (codes "/node_modules/.bin/mongodb-runner" ++ host.shim_suffix)

  installed_or : Text → Text → M (Unit {0})
  installed_or pins_of dir =
      if not (host.exists_path (runner_bin dir)) || not host.has_node
      then install_in pins_of dir
      else pure tt

  -- `_install_mongodb_runner`
  unfoldable pub install_mongodb_runner : Text → M Text
  unfolding lifted installed_or
  install_mongodb_runner version = do
    versions ← lifted (host.pinned_versions (pin_dir version))
    digest ← lifted (host.pin_digest (pin_dir version))
    installed_or (pin_dir version) (install_dir versions digest)
    pure (runner_bin (install_dir versions digest))

-- `_host_lacks_mongodb_runner_support`
unfoldable pub host_lacks_mongodb_runner_support : Text → Bool
host_lacks_mongodb_runner_support message =
    contains (codes "npm was not found on PATH") message || contains (codes "EBADENGINE") message

judged : Result Text Text × List Event → Result Text Bool × List Event
unfolding host_lacks_mongodb_runner_support
judged (ok bin, events) = (ok true, events)
judged (raise message, events) =
    if host_lacks_mongodb_runner_support message
    then (ok false, events)
    else (raise message, events)

-- `_mongodb_runner_supported`
unfoldable pub mongodb_runner_supported : Host → Text → M Bool
unfolding judged
mongodb_runner_supported host version events =
    if host.use_dev_runner
    then (ok host.has_node, events)
    else judged (install_mongodb_runner host version events)
