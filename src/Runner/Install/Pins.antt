-- ===== src/Runner/Install/Pins.antt =====
-- The version cannot lead out of the directory of the pins.
use drivers_evergreen_tools.Common.{
  ◌≡◌, ◌≢◌, ◌⊎◌, refl, inl, inr, arith, true, Bool-cases, Option-cases, [], ◌∷◌, ◌++◌, some, All,
}
use drivers_evergreen_tools.Common.Text.{Text, codes}
use drivers_evergreen_tools.Common.Text.Decimal.{span_digits, is_digit, IsDigit}
use drivers_evergreen_tools.Runner.Install.{
  minor_and_tail, behind_major, without_v, pin_group, Host, dir_of, pin_dir,
}

-- Two numbers and a dot between them.
pub record IsMinor (name : Text) : Type 0 where
  pub major : Text
  pub minor : Text
  pub spelled : name ≡ major ++ b'.' ∷ minor
  pub major_digits : All IsDigit major
  pub minor_digits : All IsDigit minor
  pub major_some : major ≢ []
  pub minor_some : minor ≢ []

span_digits-IsDigit : (s : Text) → All IsDigit (span_digits s).0
unfolding span_digits
span_digits-IsDigit [] = tt
span_digits-IsDigit (c ∷ s) = elim (Bool-cases (is_digit c)) [
  | inl e ↦ rw e (e, span_digits-IsDigit s)
  | inr e ↦ rw e tt
]

minor_lem :
    (major name : Text) (run : Text × Text)
    → All IsDigit major
    → major ≢ []
    → All IsDigit run.0
    → minor_and_tail major run ≡ some name
    → IsMinor name
unfolding minor_and_tail
minor_lem major name ([], rest) d n e h = absurd (ground arith)
minor_lem major name ((c ∷ ds), rest) d n e h = record {
  major = major;
  minor = c ∷ ds;
  spelled = ground arith;
  major_digits = d;
  minor_digits = e;
  major_some = n;
  minor_some = λ k. cc;
}

major_lem :
    (name : Text) (run : Text × Text)
    → All IsDigit run.0
    → behind_major run ≡ some name
    → IsMinor name
unfolding behind_major
major_lem name ([], rest) d h = absurd (ground arith)
major_lem name ((c ∷ ds), []) d h = absurd (ground arith)
major_lem name ((c ∷ ds), (dot ∷ s)) d h =
    minor_lem (c ∷ ds) name (span_digits s) d (λ k. cc) (span_digits-IsDigit s) (ground arith)

pin_group-IsMinor : (version name : Text) → pin_group version ≡ some name → IsMinor name
unfolding pin_group
pin_group-IsMinor version name h =
    major_lem name (span_digits (without_v version)) (span_digits-IsDigit (without_v version)) h

-- Whatever the version, the pins are in the directory of the pins: in "default", or in a directory
-- that is there and named by two numbers with a dot between them.
pub pin_dir-IsMinor :
    (host : Host) (version : Text)
    → (name : Text) × (pin_dir host version ≡ host.pins ++ b'/' ∷ name)
      × ((name ≡ codes "default")
          ⊎ (IsMinor name × (host.is_dir (host.pins ++ b'/' ∷ name) ≡ true)))
unfolding pin_dir dir_of
pin_dir-IsMinor host version = elim (Option-cases (pin_group version)) [
  | inl e ↦ (codes "default", rw e refl, inl refl)
  | inr (name, e) ↦ (elim (Bool-cases (host.is_dir (host.pins ++ b'/' ∷ name))) [
    | inl there ↦ (name, rw (e, there) refl, inr (pin_group-IsMinor version name e, there))
    | inr missing ↦ (codes "default", rw (e, missing) refl, inl refl)
  ])
]
