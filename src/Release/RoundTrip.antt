-- ===== src/Release/RoundTrip.antt =====
-- The tag of a version is read back as that version.
use drivers_evergreen_tools.Common.{
  ℕ, ◌<◌, ◌≡◌, refl, some, [], ◌∷◌, ◌++◌, arith, All, length, append-nil,
}
use drivers_evergreen_tools.Common.Text.{Text}
use drivers_evergreen_tools.Common.Text.Decimal.{
  value, show, IsDigit, NoDigitFirst, span_digits-append, show-IsDigit, show_pos, value-show,
}
use drivers_evergreen_tools.Release.{Version, parse_number, parse_version, format_tag}

parse_number-digits :
    (ds rest : Text)
    → All IsDigit ds
    → 0 < length ds
    → NoDigitFirst rest
    → parse_number (ds ++ rest) ≡ some (value 0 ds, rest)
unfolding parse_number
parse_number-digits [] rest d h e = elim h [ ]
parse_number-digits (c ∷ ds) rest d h e = ground (arith, span_digits-append (c ∷ ds) rest d e)

parse_number-show :
    (n : ℕ) (rest : Text) → NoDigitFirst rest → parse_number (show n ++ rest) ≡ some (n, rest)
parse_number-show n rest e =
    ground (arith, parse_number-digits (show n) rest (show-IsDigit n) (show_pos n) e, value-show n)

parse_number-last : (n : ℕ) → parse_number (show n) ≡ some (n, [])
parse_number-last n = rw (append-nil (show n)) at (parse_number-show n [] tt)

-- Every version is what its tag parses to.
pub parse_version-format_tag : (v : Version) → parse_version (format_tag v) ≡ some v
unfolding parse_version format_tag
parse_version-format_tag v = ground (
  arith,
  parse_number-show v.major (b'.' ∷ (show v.minor ++ b'.' ∷ show v.patch)) refl,
  parse_number-show v.minor (b'.' ∷ show v.patch) refl,
  parse_number-last v.patch,
)
