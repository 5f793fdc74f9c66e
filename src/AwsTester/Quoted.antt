-- ===== src/AwsTester/Quoted.antt =====
-- Where credentials go.
use drivers_evergreen_tools.Common.{
  ℕ, ◌/◌, ◌%◌, ◌<◌, ◌≡◌, refl, inl, inr, arith, Bool, true, false, ◌||◌, Bool-cases, List, [], ◌∷◌,
  ◌++◌, All, All-append, none, ◌==◌, if◌then◌else◌,
}
use drivers_evergreen_tools.Common.Text.{Text, codes}
use drivers_evergreen_tools.Common.Text.Utf8.{encode}
use drivers_evergreen_tools.AwsTester.{
  is_unreserved, hex_digit, quote_byte, quote_bytes, quote_plus, Creds, get, user_part, is_aws,
  is_quoted, env_of,
}

-- A character that needs no quotes in a URI or in the shell, or one of the two of the encoding.
abbrev pub IsSafe : ℕ → Type 0
IsSafe c = (is_unreserved c || (c == b'+' || c == b'%')) ≡ true

hex_digit-IsSafe : (d : ℕ) → d < 16 → IsSafe (hex_digit d)
unfolding hex_digit
hex_digit-IsSafe d h = ground arith

escape-IsSafe : (p q : ℕ) → p < 16 → q < 16 → All IsSafe (b'%' ∷ hex_digit p ∷ hex_digit q ∷ [])
escape-IsSafe p q hp hq = (refl, (hex_digit-IsSafe p hp, (hex_digit-IsSafe q hq, tt)))

quote_byte-IsSafe : (b : ℕ) → All IsSafe (quote_byte b)
unfolding quote_byte
quote_byte-IsSafe b = elim (Bool-cases (is_unreserved b)) [
  | inl e ↦ rw e (ground arith, tt)
  | inr e ↦ (elim (Bool-cases (b == b' ')) [
    | inl k ↦ rw (e, k) (refl, tt)
    | inr k ↦ rw (e, k) (escape-IsSafe (b / 16 % 16) (b % 16) (omega arith) (omega arith))
  ])
]

quote_bytes-IsSafe : (bs : List ℕ) → All IsSafe (quote_bytes bs)
unfolding quote_bytes
quote_bytes-IsSafe [] = tt
quote_bytes-IsSafe (b ∷ bs) =
    All-append IsSafe (quote_byte b) (quote_bytes bs) (quote_byte-IsSafe b) (quote_bytes-IsSafe bs)

pub quote_plus-IsSafe : (s : Text) → All IsSafe (quote_plus s)
unfolding quote_plus
quote_plus-IsSafe s = quote_bytes-IsSafe (encode s)

-- An export that is quoted where it has to be.
pub IsSafeExport : Text × Text → Type 0
IsSafeExport (key, value) = is_quoted key ≡ true → All IsSafe value

-- What a reader of a URI takes as the credentials: what is behind "mongodb://" up to the first "@".
pub userinfo : Text → Text
userinfo [] = []
userinfo (c ∷ s) = let rest = userinfo s in if c == b'@' then [] else c ∷ rest

abbrev NotAt : ℕ → Type 0
NotAt c = (c == b'@') ≡ false

-- What the file of the tester sets, for a user among the credentials.
pub record Protects (creds : Creds) (user : Text) (nouri : Bool) : Type 0 where
  pub quoted : All IsSafeExport (env_of creds nouri).exported
  pub in_uri :
      nouri ≡ false
      → (rest : Text) × ((env_of creds nouri).uri ≡ codes "mongodb://" ++ rest)
        × (userinfo rest ≡ user_part user (get (codes "PASS") creds))
  pub not_exported :
      nouri ≡ false → All (λ (e : Text × Text). is_aws e.0 ≡ false) (env_of creds nouri).exported
  pub not_in_uri :
      nouri ≡ true
      → get (codes "MONGODB_URI") creds ≡ none
      → (env_of creds nouri).uri ≡ codes "mongodb://localhost/aws?authMechanism=MONGODB-AWS"
