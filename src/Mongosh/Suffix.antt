-- ===== src/Mongosh/Suffix.antt =====
-- Which archive is chosen for Linux.
use drivers_evergreen_tools.Common.{
  ℕ, ◌≡◌, ◌⊎◌, refl, inl, inr, true, false, ◌||◌, Bool-cases, [], ◌∷◌, ok, ◌==◌,
}
use drivers_evergreen_tools.Common.Text.{Text, codes, text_eq}
use drivers_evergreen_tools.Mongodl.Url.{contains}
use drivers_evergreen_tools.Mongosh.{matches_1_1_1, linux_suffix, with_openssl, suffix_of}

no_match : (c : ℕ) (s : Text) → (c == b'1') ≡ false → matches_1_1_1 (c ∷ s) ≡ false
unfolding matches_1_1_1
no_match c [] h = refl
no_match c (c₂ ∷ []) h = refl
no_match c (c₂ ∷ c₃ ∷ []) h = refl
no_match c (c₂ ∷ c₃ ∷ c₄ ∷ []) h = refl
no_match c (c₂ ∷ c₃ ∷ c₄ ∷ c₅ ∷ []) h = refl
no_match c (c₂ ∷ c₃ ∷ c₄ ∷ c₅ ∷ c₆ ∷ []) h = refl
no_match c (c₂ ∷ c₃ ∷ c₄ ∷ c₅ ∷ c₆ ∷ c₇ ∷ s) h = rw h refl

chosen_lem :
    (c : ℕ) (s : Text)
    → (c == b'1') ≡ false
    → (linux_suffix (c ∷ s) ≡ codes "-openssl3.tgz") ⊎ (linux_suffix (c ∷ s) ≡ codes ".tgz")
unfolding linux_suffix
chosen_lem c s h = elim (Bool-cases (contains (codes "3.") (c ∷ s))) [
  | inl three ↦ inl (rw three refl)
  | inr other ↦ inr (rw (other, no_match c s h) refl)
]

-- `openssl version` prints the name of the product first. Behind such a name the version 1.1.1 is
-- not seen: on Linux the archive is the one for OpenSSL 3 or the plain one.
pub suffix_of-named :
    (c : ℕ) (s arch : Text)
    → (c == b'1') ≡ false
    → (suffix_of true (ok (c ∷ s)) (codes "linux") arch ≡ ok (codes "-openssl3.tgz"))
      ⊎ (suffix_of true (ok (c ∷ s)) (codes "linux") arch ≡ ok (codes ".tgz"))
unfolding suffix_of with_openssl text_eq
suffix_of-named c s arch h =
    elim (Bool-cases (text_eq arch (codes "x64") || text_eq arch (codes "arm64"))) [
      | inl known ↦ (elim (chosen_lem c s h) [
        | inl three ↦ inl (rw (known, three) refl)
        | inr plain ↦ inr (rw (known, plain) refl)
      ])
      | inr other ↦ inr (rw other refl)
    ]
