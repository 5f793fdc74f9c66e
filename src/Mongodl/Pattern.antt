-- ===== src/Mongodl/Pattern.antt =====
-- Glob patterns of mongodl.py: Python's `fnmatch` and `PurePath` as the program uses them, and
-- `_pathjoin` and `_test_pattern`.
pub mod Globs
pub mod Paths
pub mod Total
use drivers_evergreen_tools.Common.{
  ℕ, zero, suc, ◌≡◌, Bool, true, false, ◌&&◌, ◌||◌, not, List, [], ◌∷◌, ◌++◌, Option, none, some,
  any, ◌-◌, length, leb, ◌==◌, if◌then◌else◌,
}
use drivers_evergreen_tools.Common.Text.{Text, codes, text_eq}
use drivers_evergreen_tools.Common.Text.Regex.{◌>>?◌}

-- What a character of a pattern stands for: itself, `?`, `*`, or a set of ranges in brackets.
pub data Token : Type 0 where
  literal : ℕ → Token
  one : Token
  star : Token
  chars : Bool → List (ℕ × ℕ) → Token

-- The ranges in brackets: `a-z`, or single characters.
ranges : Text → List (ℕ × ℕ)
ranges [] = []
ranges (c ∷ []) = (c, c) ∷ []
ranges (c ∷ d ∷ []) = (c, c) ∷ (d, d) ∷ []
ranges (c ∷ d ∷ e ∷ s) =
    let range = ranges s in
    let single = ranges (d ∷ e ∷ s) in if d == b'-' then (c, e) ∷ range else (c, c) ∷ single

-- The text up to the closing bracket, and behind it.
until_bracket : Text → Option (Text × Text)
until_bracket [] = none
until_bracket (c ∷ s) =
    let rest = until_bracket s in
    if c == b']' then some ([], s) else rest >>? λ (inside, behind). some (c ∷ inside, behind)

-- A closing bracket in the first place stands for itself.
inside_bracket : Text → Option (Text × Text)
unfolding until_bracket
inside_bracket [] = none
inside_bracket (c ∷ s) = until_bracket s >>? λ (inside, behind). some (c ∷ inside, behind)

bracket : Text → Option (Token × Text)
unfolding inside_bracket ranges
bracket [] = none
bracket (c ∷ s) =
    if c == b'!'
    then (inside_bracket s >>? λ (inside, behind). some (chars true (ranges inside), behind))
    else inside_bracket (c ∷ s) >>? λ (inside, behind). some (chars false (ranges inside), behind)

-- The tokens of a pattern, behind `skip` characters that the last token has taken. A bracket
-- that is never closed stands for itself.
tokens_from : ℕ → Text → List Token
unfolding bracket
tokens_from skip [] = []
tokens_from (suc skip) (c ∷ s) = tokens_from skip s
tokens_from zero (c ∷ s) =
    let rest = tokens_from 0 s in
    if c == b'*'
    then star ∷ rest
    else if c == b'?'
    then one ∷ rest
    else if c == b'['
    then (elim (bracket s) [
      | none ↦ literal c ∷ rest
      | some (t, behind) ↦ t ∷ tokens_from (length s - length behind) s
    ])
    else literal c ∷ rest

unfoldable pub tokens : Text → List Token
unfolding tokens_from
tokens pattern = tokens_from 0 pattern

token_matches : Token → ℕ → Bool
token_matches (literal d) c = c == d
token_matches one c = true
token_matches star c = false
token_matches (chars negated rs) c =
    let inside = any (λ (low, high). leb low c && leb c high) rs in
    if negated then not inside else inside

abbrev pub suffixes {ℓ} : {A : Type ℓ} → List A → List (List A)
suffixes [] = [] ∷ []
suffixes (x ∷ xs) = (x ∷ xs) ∷ suffixes xs

unfoldable pub tokens_match : List Token → Text → Bool
unfolding token_matches
tokens_match [] [] = true
tokens_match [] (c ∷ s) = false
tokens_match (star ∷ ts) s = any (tokens_match ts) (suffixes s)
tokens_match (t ∷ ts) [] = false
tokens_match (t ∷ ts) (c ∷ s) = token_matches t c && tokens_match ts s

-- `fnmatch(name, pattern)` on a host whose file names are case sensitive.
unfoldable pub fnmatch : Text → Text → Bool
unfolding tokens tokens_match
fnmatch name pattern = tokens_match (tokens pattern) name

-- `s.split(separator)`
unfoldable pub split_at : ℕ → Text → Text → List Text
split_at separator word [] = word ∷ []
split_at separator word (c ∷ s) =
    let rest = split_at separator [] s in
    let longer = split_at separator (word ++ c ∷ []) s in
    if c == separator then word ∷ rest else longer

-- A component of a path that stands for nothing.
unfoldable pub is_void : Text → Bool
is_void part = text_eq part [] || text_eq part (codes ".")

unfoldable pub keep_parts : List Text → List Text
unfolding is_void
keep_parts [] = []
keep_parts (part ∷ parts) = if is_void part then keep_parts parts else part ∷ keep_parts parts

-- The anchor of a POSIX path: two slashes and no third are an anchor of their own.
unfoldable pub anchor : Text → List Text
anchor [] = []
anchor (a ∷ []) = if a == b'/' then codes "/" ∷ [] else []
anchor (a ∷ b ∷ []) =
    if a == b'/' then (if b == b'/' then codes "//" ∷ [] else codes "/" ∷ []) else []
anchor (a ∷ b ∷ c ∷ s) =
    if a == b'/'
    then (if b == b'/' && not (c == b'/') then codes "//" ∷ [] else codes "/" ∷ [])
    else []

-- `PurePath(text).parts`
unfoldable pub parts_of : Text → List Text
unfolding split_at keep_parts anchor
parts_of s = anchor s ++ keep_parts (split_at b'/' [] s)

-- `"/".join(items)`
unfoldable pub join : List Text → Text
join [] = []
join (part ∷ []) = part
join (part ∷ more ∷ parts) = part ++ b'/' ∷ join (more ∷ parts)

-- A path is its parts.
unfoldable pub pathjoin : List Text → List Text
unfolding parts_of join
pathjoin items = parts_of (join items)

-- `any` over tests that may not return.
unfoldable pub any_returns : (List Text → Option Bool) → List (List Text) → Option Bool
any_returns p [] = some false
any_returns p (t ∷ ts) = p t >>? λ found. if found then some true else any_returns p ts

-- The non-empty suffixes of a path.
abbrev pub tails : List Text → List (List Text)
tails [] = []
tails (part ∷ parts) = (part ∷ parts) ∷ tails parts

-- `_test_pattern` over the parts of a pattern, in `fuel` calls.
unfoldable pub test_parts : ℕ → List Text → List Text → Option Bool
unfolding fnmatch pathjoin any_returns
test_parts fuel path [] = some true
test_parts fuel [] (head ∷ tail) = some false
test_parts zero (part ∷ parts) (head ∷ tail) = none
test_parts (suc fuel) (part ∷ parts) (head ∷ tail) =
    if text_eq head (codes "**")
    then any_returns (λ t. test_parts fuel (pathjoin t) (pathjoin tail)) (tails (part ∷ parts))
    else if not (fnmatch part head)
    then some false
    else test_parts fuel (pathjoin parts) (pathjoin tail)

unfoldable pub test_pattern : List Text → Option (List Text) → Option Bool
test_pattern path none = some true
test_pattern path (some pattern) = test_parts (length pattern) path pattern
