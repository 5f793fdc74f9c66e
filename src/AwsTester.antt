-- ===== src/AwsTester.antt =====
-- The file of the MONGODB-AWS tester: `handle_creds` of auth_aws/aws_tester.py, with quote_plus of
-- the standard library. The credentials are a dict in its order.
pub mod Quoted
pub mod Tests
use drivers_evergreen_tools.Common.{
  ℕ, ◌+◌, ◌-◌, ◌/◌, ◌%◌, Bool, true, false, ◌&&◌, ◌||◌, not, List, [], ◌∷◌, ◌++◌, Option, none,
  some, any, ltb, leb, ◌==◌, if◌then◌else◌,
}
use drivers_evergreen_tools.Common.Text.{Text, codes, text_eq}
use drivers_evergreen_tools.Common.Text.Decimal.{is_digit}
use drivers_evergreen_tools.Common.Text.Utf8.{encode}

abbrev pub is_unreserved : ℕ → Bool
is_unreserved c =
    (leb b'a' c && leb c b'z')
    || ((leb b'A' c && leb c b'Z')
        || (is_digit c || (c == b'_' || (c == b'.' || (c == b'-' || c == b'~')))))

unfoldable pub hex_digit : ℕ → ℕ
hex_digit d = if ltb d 10 then b'0' + d else b'A' + (d - 10)

unfoldable pub quote_byte : ℕ → Text
quote_byte b =
    if is_unreserved b
    then b ∷ []
    else if b == b' '
    then b'+' ∷ []
    else b'%' ∷ hex_digit (b / 16 % 16) ∷ hex_digit (b % 16) ∷ []

unfoldable pub quote_bytes : List ℕ → Text
quote_bytes [] = []
quote_bytes (b ∷ bs) = quote_byte b ++ quote_bytes bs

-- urllib.parse.quote_plus
unfoldable pub quote_plus : Text → Text
quote_plus s = quote_bytes (encode s)

abbrev pub Creds : Type 0
Creds = List (Text × Text)

unfoldable pub get : Text → Creds → Option Text
get key [] = none
get key ((k, v) ∷ creds) = let rest = get key creds in if text_eq k key then some v else rest

has : Option Text → Bool
has none = false
has (some value) = true

remove : Text → Creds → Creds
remove key [] = []
remove key ((k, v) ∷ creds) =
    let rest = remove key creds in if text_eq k key then rest else (k, v) ∷ rest

unfoldable pub user_part : Text → Option Text → Text
user_part user none = quote_plus user
user_part user (some pass) = quote_plus user ++ b':' ∷ quote_plus pass

with_user : Text → Option Text → Text
unfolding user_part
with_user user pass = codes "mongodb://" ++ (user_part user pass ++ codes "@localhost")

-- The URI without its options, where no credentials go into it, and what stays of them: a URI among
-- them is taken out.
popped : Option Text → Creds → Text × Creds
unfolding remove
popped none creds = (codes "mongodb://localhost", creds)
popped (some uri) creds = (uri, remove (codes "MONGODB_URI") creds)

unfoldable pub base_uri : Option Text → Bool → Creds → Text × Creds
unfolding with_user popped
base_uri (some user) false creds = (with_user user (get (codes "PASS") creds), creds)
base_uri (some user) true creds = popped (get (codes "MONGODB_URI") creds) creds
base_uri none nouri creds = popped (get (codes "MONGODB_URI") creds) creds

token_option : Option Text → Bool → Text
token_option none nouri = []
token_option (some token) true = []
token_option (some token) false =
    codes "&authMechanismProperties=AWS_SESSION_TOKEN:" ++ quote_plus token

unfoldable pub mongodb_uri : Text → Option Text → Bool → Text
unfolding token_option
mongodb_uri base token nouri =
    base ++ (codes "/aws?authMechanism=MONGODB-AWS" ++ token_option token nouri)

abbrev pub is_aws : Text → Bool
is_aws key =
    any (text_eq key)
      (codes "AWS_ACCESS_KEY_ID" ∷ codes "AWS_SECRET_ACCESS_KEY" ∷ codes "AWS_SESSION_TOKEN" ∷ [])

abbrev pub is_quoted : Text → Bool
is_quoted key = any (text_eq key) (codes "USER" ∷ codes "PASS" ∷ codes "SESSION_TOKEN" ∷ [])

-- What the loop exports; `in_uri` is whether the credentials are in the URI.
unfoldable pub exports : Bool → Creds → Creds
exports in_uri [] = []
exports in_uri ((key, value) ∷ creds) =
    let rest = exports in_uri creds in
    if is_aws key && in_uri
    then rest
    else if is_quoted key
    then (key, quote_plus value) ∷ rest
    else (key, value) ∷ rest

export_lines : Creds → Text
export_lines [] = []
export_lines ((key, value) ∷ creds) =
    codes "export " ++ (key ++ b'=' ∷ (value ++ 10 ∷ export_lines creds))

-- What test-env.sh sets: the exports in their order, and the URI.
pub record Env : Type 0 where
  pub exported : Creds
  pub uri : Text

unfoldable pub env_of : Creds → Bool → Env
unfolding has
env_of creds nouri =
    let (base, left) = base_uri (get (codes "USER") creds) nouri creds in
    record {
      exported = exports (not nouri && has (get (codes "USER") left)) left;
      uri = mongodb_uri base (get (codes "SESSION_TOKEN") left) nouri;
    }

file_of : Env → Text
unfolding export_lines
file_of env =
    codes "#!/usr/bin/env bash"
    ++ 10
      ∷ 10
      ∷ (codes "set +x"
          ++ 10
            ∷ (export_lines env.exported
                ++ (codes "export MONGODB_URI=" ++ b'"' ∷ (env.uri ++ b'"' ∷ 10 ∷ []))))

-- `handle_creds`: the contents of test-env.sh.
unfoldable pub handle_creds : Creds → Bool → Text
unfolding file_of
handle_creds creds nouri = file_of (env_of creds nouri)
