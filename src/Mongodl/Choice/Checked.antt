-- ===== src/Mongodl/Choice/Checked.antt =====
-- Where the check of a chosen build comes from.
use drivers_evergreen_tools.Common.{◌≡◌, ◌⊎◌, Option, none, some}
use drivers_evergreen_tools.Common.Text.{Text, codes}
use drivers_evergreen_tools.Mongodl.Builds.{Wanted, SignatureUrl}
use drivers_evergreen_tools.Mongodl.Builds.Row.{IsOfList}
use drivers_evergreen_tools.Mongodl.Database.{Db}
use drivers_evergreen_tools.Mongodl.Choice.{Chosen, renamed}

-- Of the version that is wanted, or of the latest release.
abbrev pub IsPublished :
    (Text → Text → Option (Option Text)) → Db → Text → Wanted → Text → Option Text → Type 0
IsPublished loads db version w url sum =
    IsOfList loads db version w url sum
    ⊎ IsOfList loads db (codes "latest-release") (renamed w) url sum

-- A published build has what its row has, a latest one a signature.
abbrev pub IsChecked : (Text → Text → Option (Option Text)) → Db → Text → Wanted → Chosen → Type 0
IsChecked loads db version w c =
    (IsPublished loads db version w c.dl_url c.sha256 × (c.signature ≡ none))
    ⊎ ((sig : SignatureUrl) × (c.sha256 ≡ none) × (c.signature ≡ some sig))
