-- ===== src/Orchestration/Config/Requested.antt =====
-- The configuration has what the options ask for.
use drivers_evergreen_tools.Common.{◌≡◌, ◌⊎◌, ◌++◌, true, false, [], some}
use drivers_evergreen_tools.Common.Text.{Text, codes, text_eq}
use drivers_evergreen_tools.Orchestration.Json.{flag, text, obj, Fields, get}
use drivers_evergreen_tools.Orchestration.Options.{Options, is_set, or_default}
use drivers_evergreen_tools.Orchestration.Config.{Host, orchestration_path, under, replace}

-- The TLS settings are there, and let invalid certificates through.
pub record AllowsInvalid (fs : Fields) : Type 0 where
  pub params : Fields
  pub ssl_params : get (codes "sslParams") fs ≡ some (obj params)
  pub allowed : get (codes "tlsAllowInvalidCertificates") params ≡ some (flag true)

module _ (host : Host) where
  -- The text with the two files of the options in place of those of the repository.
  pub IsOverridden : Options → Text → Text → Type 0
  IsOverridden opts t t' =
      ((is_set opts.tls_pem_key_file ≡ false) × (is_set opts.tls_ca_file ≡ false) × (t' ≡ t))
      ⊎ ((is_set opts.tls_pem_key_file ≡ true)
          × (is_set opts.tls_ca_file ≡ true)
          × (t'
              ≡ replace (codes "ABSOLUTE_PATH_REPLACEMENT_TOKEN/.evergreen/x509gen/ca.pem")
                  (host.spelled (or_default opts.tls_ca_file []))
                  (replace (codes "ABSOLUTE_PATH_REPLACEMENT_TOKEN/.evergreen/x509gen/server.pem")
                    (host.spelled (or_default opts.tls_pem_key_file [])) t)))

  -- The file that is read: the one that is asked for, for this topology, or the implicit one.
  pub record IsFrom (opts : Options) (fs₀ : Fields) : Type 0 where
    pub contents : Text
    pub overridden : Text
    pub read : host.read_text (orchestration_path opts) ≡ some contents
    pub asked :
        (is_set opts.orchestration_file ≡ true)
        → orchestration_path opts
          ≡ under (or_default opts.mongo_orchestration_home []) (
              codes "configs/"
              ++ (or_default opts.topology []
                  ++ (codes "s/" ++ or_default opts.orchestration_file [])))
    pub tls : IsOverridden opts contents overridden
    pub parsed_as :
        host.loads (
          replace
            (codes "ABSOLUTE_PATH_REPLACEMENT_TOKEN")
            (host.spelled host.drivers_tools)
            overridden)
        ≡ some fs₀

  -- The two settings that the options may add.
  pub Other : Text → Type 0
  Other key =
      (text_eq (codes "requireApiVersion") key ≡ false) × (text_eq (codes "sslParams") key ≡ false)

  pub Keeps : Fields → Fields → Type 0
  Keeps fs fs' = (key : Text) → Other key → get key fs' ≡ get key fs

  -- What `get_orchestration_data` returns outside of Docker.
  pub record Requested (opts : Options) (fs : Fields) : Type 0 where
    pub source : Fields
    pub from_file : IsFrom opts source
    pub kept : Keeps source fs
    pub api_version :
        (opts.require_api_version ≡ false)
        ⊎ ((text_eq (or_default opts.topology []) (codes "replica_set") ≡ false)
            × (get (codes "requireApiVersion") fs ≡ some (text (codes "1"))))
    pub certificates : (opts.tls_allow_invalid_certificates ≡ false) ⊎ AllowsInvalid fs
