-- ===== src/Mongosh/Tests.antt =====
-- Runs of the download of mongosh.
use drivers_evergreen_tools.Common.{ℕ, ◌+◌, ◌≡◌, ◌⊎◌, refl, true, false, [], ◌∷◌, some, ok, raise}
use drivers_evergreen_tools.Common.Exec.{pure, ◌>>=◌}
use drivers_evergreen_tools.Common.Text.{codes, text_eq}
use drivers_evergreen_tools.Mongodl.Extract.{okay}
use drivers_evergreen_tools.Mongodl.Retry.{transient, run}
use drivers_evergreen_tools.Mongodl.Url.{contains}
use drivers_evergreen_tools.Mongosh.{
  Host, suffix_of, mongosh_arch, dl_url, get_latest_version, download, linux_suffix,
}
use drivers_evergreen_tools.Mongosh.Suffix.{suffix_of-named}

-- A host on which no download succeeds; the state counts the downloads.
abbrev offline : Host ℕ
offline = record {
  linux = true;
  openssl = ok (codes "OpenSSL 3.0.2 15 Mar 2022");
  download_file = λ url n. (raise (transient (codes "no network")), n + 1);
  first_version = λ cached. ok cached;
  expand_archive = λ cached. pure okay;
}

abbrev online : Host ℕ
online = record {
  linux = true;
  openssl = ok (codes "OpenSSL 3.0.2 15 Mar 2022");
  download_file = λ url n. (ok (codes "2.3.8"), n + 1);
  first_version = λ cached. ok cached;
  expand_archive = λ cached. pure okay;
}

latest_twice :
    download online (codes "latest") (codes "linux") (codes "aarch64") false 3 0
    ≡ some (ok okay, 2, [])
unfolding download text_eq get_latest_version run ◌>>=◌
latest_twice = refl

three_tries :
    download offline (codes "2.3.8") (codes "linux") (codes "aarch64") false 2 0
    ≡ some (raise (transient (codes "no network")), 3, 1 ∷ 2 ∷ [])
unfolding download text_eq run ◌>>=◌
three_tries = refl

arm :
    dl_url (codes "2.3.8") (codes "linux") (mongosh_arch (codes "aarch64")) (codes ".tgz")
    ≡ codes "https://downloads.mongodb.com/compass/mongosh-2.3.8-linux-arm64.tgz"
unfolding dl_url mongosh_arch text_eq
arm = refl

bare_1_1_1 : linux_suffix (codes "1.1.1w ") ≡ codes "-openssl11.tgz"
unfolding linux_suffix contains
bare_1_1_1 = refl

suffix_of-named_example :
    (suffix_of true (ok (codes "OpenSSL 1.1.1w  11 Sep 2023")) (codes "linux") (codes "x64")
      ≡ ok (codes "-openssl3.tgz"))
    ⊎ (suffix_of true (ok (codes "OpenSSL 1.1.1w  11 Sep 2023")) (codes "linux") (codes "x64")
        ≡ ok (codes ".tgz"))
suffix_of-named_example =
    suffix_of-named b'O' (codes "penSSL 1.1.1w  11 Sep 2023") (codes "x64") refl
