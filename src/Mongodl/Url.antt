-- ===== src/Mongodl/Url.antt =====
-- The URLs of downloads: `_strip_presigned_query` of mongodl.py, and what it uses of `urlsplit`.
pub mod Strip
use drivers_evergreen_tools.Common.{
  ℕ, ◌≡◌, Bool, true, false, ◌&&◌, ◌||◌, not, List, [], ◌∷◌, ◌++◌, Option, none, some, any, ◌==◌,
  if◌then◌else◌,
}
use drivers_evergreen_tools.Common.Text.{Text, codes, text_eq}
use drivers_evergreen_tools.Mongodl.Pattern.{suffixes, parts_of, is_void}

-- The text before the first `mark`, and behind it if there is one.
unfoldable pub cut : ℕ → Text → Text × Option Text
cut mark [] = ([], none)
cut mark (c ∷ s) = let rest = cut mark s in if c == mark then ([], some s) else (c ∷ rest.0, rest.1)

unfoldable pub is_prefix : Text → Text → Bool
is_prefix [] s = true
is_prefix (p ∷ ps) [] = false
is_prefix (p ∷ ps) (c ∷ s) = p == c && is_prefix ps s

-- `needle in s`
unfoldable pub contains : Text → Text → Bool
unfolding is_prefix
contains needle s = any (is_prefix needle) (suffixes s)

-- The parts of a URL. The scheme and the host stay in front of the path.
pub record Split : Type 0 where
  pub front : Text
  pub query : Text
  pub fragment : Text

or_empty : Option Text → Text
or_empty none = []
or_empty (some s) = s

unfoldable pub urlsplit : Text → Split
unfolding cut or_empty
urlsplit url =
    let (before_fragment, fragment) = cut b'#' url in
    let (front, query) = cut b'?' before_fragment in
    record { front = front; query = or_empty query; fragment = or_empty fragment }

after_mark : ℕ → Text → Text
after_mark mark [] = []
after_mark mark (c ∷ s) = mark ∷ c ∷ s

-- `geturl()`: empty parts are left out with their marks.
unfoldable pub geturl : Split → Text
unfolding after_mark
geturl parts = parts.front ++ (after_mark b'?' parts.query ++ after_mark b'#' parts.fragment)

unfoldable pub is_presigned : Text → Bool
is_presigned query = contains (codes "X-Amz-") query || contains (codes "AWSAccessKeyId") query

unfoldable pub strip_presigned_query : Text → Text
unfolding is_presigned
strip_presigned_query url =
    let parsed = urlsplit url in
    if not (is_presigned parsed.query) then url else geturl (record parsed { query = [] })

-- The path of a URL with a scheme and a host: what stands behind `//` and the host.
path_behind : Option Text → Text
path_behind none = []
path_behind (some path) = b'/' ∷ path

behind_scheme : Text → Text
behind_scheme [] = []
behind_scheme (c ∷ []) = c ∷ []
behind_scheme (c ∷ d ∷ s) =
    let later = behind_scheme (d ∷ s) in
    if c == b'/' && d == b'/' then path_behind (cut b'/' s).1 else later

last_of : List Text → Text
last_of [] = []
last_of (part ∷ []) = if text_eq part (codes "/") || text_eq part (codes "//") then [] else part
last_of (part ∷ more ∷ parts) = last_of (more ∷ parts)

-- `PurePosixPath(urlsplit(url).path).name`
unfoldable pub file_name : Text → Text
unfolding path_behind behind_scheme last_of
file_name url = last_of (parts_of (behind_scheme (urlsplit url).front))
