-- ===== src/Orchestration/Otel/Versions.antt =====
-- The version gates of `--otel`.
use drivers_evergreen_tools.Common.{
  ℕ, ◌≤◌, ◌<◌, ◌≡◌, ◌↔◌, refl, arith, [], ◌∷◌, ◌++◌, some, length, ok,
}
use drivers_evergreen_tools.Common.Text.{Text, codes}
use drivers_evergreen_tools.Common.Text.Decimal.{
  show, value, span_digits-append, value-show, show-IsDigit, show_pos, NoDigitFirst,
}
use drivers_evergreen_tools.Common.Text.Regex.{expect_all, expect}
use drivers_evergreen_tools.Orchestration.Otel.{
  run_value, number_at, minor_behind, version_at, version_from_mongod_output, judge_version,
  check_mongod_version,
}

number_at-show :
    (n : ℕ) (rest : Text) → NoDigitFirst rest → number_at (show n ++ rest) ≡ some (n, rest)
unfolding number_at run_value
number_at-show n rest h =
    rw (span_digits-append (show n) rest (show-IsDigit n) h)
      (found (show n) (value-show n) (show_pos n))
  where
    found : (ds : Text) → value 0 ds ≡ n → 0 < length ds → run_value (ds, rest) ≡ some (n, rest)
    found [] e h = absurd (omega arith)
    found (d ∷ ds) e h = ground arith

-- A line of the output: "db version v", the two numbers, and what follows.
abbrev pub version_line : ℕ → ℕ → Text → Text
version_line major minor rest = codes "db version v" ++ (show major ++ b'.' ∷ (show minor ++ rest))

version_at_lem :
    (s behind behind' last : Text) (major minor : ℕ)
    → expect_all (codes "db version v") s ≡ some behind
    → number_at behind ≡ some (major, b'.' ∷ behind')
    → number_at behind' ≡ some (minor, last)
    → version_at s ≡ some (major, minor)
unfolding version_at minor_behind
version_at_lem s behind behind' last major minor e f g = rw (e, version_at) (rw f (rw g))

first_line :
    (c : ℕ) (s : Text) {v : ℕ × ℕ}
    → version_at (c ∷ s) ≡ some v
    → version_from_mongod_output (c ∷ s) ≡ some v
unfolding version_from_mongod_output
first_line c s h = rw (h, version_from_mongod_output)

version_line_lem :
    (major minor : ℕ) (rest : Text)
    → NoDigitFirst rest
    → version_from_mongod_output (version_line major minor rest) ≡ some (major, minor)
unfolding expect_all expect
version_line_lem major minor rest h = first_line b'd' _ (
    version_at_lem (version_line major minor rest) (show major ++ b'.' ∷ (show minor ++ rest))
      (show minor ++ rest) rest major minor refl
      (number_at-show major (b'.' ∷ (show minor ++ rest)) refl) (number_at-show minor rest h))

-- The binary is accepted where the first line of its output reports 9.0 or above, and only there.
pub check_mongod_version_iff :
    (major minor : ℕ) (rest : Text)
    → NoDigitFirst rest
    → (check_mongod_version (some (version_line major minor rest)) ≡ ok tt) ↔ (9 ≤ major)
unfolding check_mongod_version judge_version
check_mongod_version_iff major minor rest h =
    rw (version_line_lem major minor rest h) (ground arith, ground arith)
