-- ===== src/Kms/Routes.antt =====
-- What the key operations of the providers are answered with.
use drivers_evergreen_tools.Common.{◌≡◌, refl, true, List, [], ◌∷◌, ◌++◌}
use drivers_evergreen_tools.Common.Text.{Text, codes}
use drivers_evergreen_tools.Mongodl.Pattern.{fnmatch, tokens, tokens_match}
use drivers_evergreen_tools.Kms.{
  Counters, send_json, value_plaintext, value_ciphertext, last_matches, may_fail, by_path,
}

last_matches-append :
    (front : List Text) (last pattern : Text)
    → last_matches (front ++ last ∷ []) pattern ≡ fnmatch last pattern
unfolding last_matches
last_matches-append [] last pattern = refl
last_matches-append (a ∷ []) last pattern = refl
last_matches-append (a ∷ b ∷ front) last pattern = last_matches-append (b ∷ front) last pattern

-- Azure's two operations, under any key: `unwrapkey` decrypts and can fail by the HTTP failpoint,
-- `wrapkey` encrypts and cannot, although the path of the one also matches the other's pattern.
pub by_path-wrapkey :
    (front : List Text) (c : Counters)
    → (by_path (front ++ codes "wrapkey" ∷ []) c ≡ (send_json value_ciphertext, c))
      × (by_path (front ++ codes "unwrapkey" ∷ []) c ≡ may_fail value_plaintext c)
      × (last_matches (front ++ codes "unwrapkey" ∷ []) (codes "*wrapkey") ≡ true)
unfolding by_path fnmatch tokens tokens_match
by_path-wrapkey front c =
    let wrap = last_matches-append front (codes "wrapkey") in
    let unwrap = last_matches-append front (codes "unwrapkey") in
    (
      rw
          (
            wrap (codes "*token"),
            wrap (codes "*encrypt"),
            wrap (codes "*decrypt"),
            wrap (codes "*unwrapkey"),
            wrap (codes "*wrapkey"),
          )
          refl,
      rw
          (
            unwrap (codes "*token"),
            unwrap (codes "*encrypt"),
            unwrap (codes "*decrypt"),
            unwrap (codes "*unwrapkey"),
          )
          refl,
      rw (unwrap (codes "*wrapkey")) refl,
    )
