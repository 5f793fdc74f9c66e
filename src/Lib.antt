-- ===== src/Lib.antt =====
-- Drivers evergreen tools.
--
-- The repository holds the scripts with which MongoDB's drivers are tested. This library models the
-- parts with logic of their own, function by function:
--
--   Release          .github/scripts/bump_version.py: versions of tags, their order, and the next tag.
--   Socks            .evergreen/socks5srv.py: a SOCKS5 proxy with a table of remapped addresses.
--   Socks/Stream     recv and read_exact over a stream that arrives in segments
--   Socks/Remap      AddressRemapper: parsing mappings, the DNS step, remap
--   Socks/Connect    create_outgoing_tcp_connection
--   Socks/Handler    Socks5Handler.handle, up to the proxying
--   Socks/Relay      raw_proxy
--   Mongodl          .evergreen/mongodl.py: the download of server builds.
--   Mongodl/Version  version_tup, collate_mdb_version, mdb_version_not_rc, mdb_version_rapid
--   Mongodl/Pattern  fnmatch and PurePath as the program uses them, _pathjoin, _test_pattern
--   Mongodl/Files    the file system, _mkdir
--   Mongodl/Extract  _expand_archive, _expand_tgz, _expand_zip, _maybe_extract_member
--   Mongodl/Url      _strip_presigned_query and the name of a cached file
--   Mongodl/Cache    Cache.download_file
--   Mongodl/Retry    DownloadRetrier and the loop of attempts in _dl_component
--   Mongodl/Target   infer_target, infer_target_from_os_release, and their tables
--   Mongodl/Database CacheDB.import_json_data and iter_available
--   Mongodl/Builds   _published_build_url, _legacy_latest_build_url, _latest_build_url
--   Mongodl/Choice   the defaults of main, infer_arch, and which build _dl_component chooses
--   Mongodl/Component the attempt of _dl_component: download, checksum, signature, extraction
--   Mongodl/Refresh  CacheDB.transaction, import_json_file, Cache.refresh_full_json
--   Runner           .evergreen/orchestration/mongodb_runner.py: _handle_proc_params and
--                    _get_cluster_options
--   Runner/Install   _pin_dir, _install_mongodb_runner, _mongodb_runner_supported
--   Orchestration    .evergreen/orchestration/drivers_orchestration.py and otel.py
--   Orchestration/Json    JSON values, the members of a cluster in them, and putting them back
--   Orchestration/Options get_options for run, normalize_path
--   Orchestration/Otel    handle_otel_config, validate_otel_opts, check_mongod_version
--   Orchestration/Docker  handle_docker_config, get_docker_cmd
--   Orchestration/Config  get_orchestration_data
--   Orchestration/Wait    the loops of start_atlas and start that wait for a server
--   Orchestration/Stop    stop, shutdown_proc
--   Orchestration/Run     run, clean_run, run_command
--   Kms              .evergreen/csfle/kms_failpoint_server.py: Handler.do_POST
--   Artifacts        .evergreen/server_artifacts.py: _fetch_signature, what _verify_gpg_signature
--                    accepts, and verify_latest_build
--   Artifacts/Resolve  _has_s3_access, _resolve_s3_client, presigned_urls
--   Mongosh          .evergreen/mongosh_dl.py: _get_latest_version, _download
--   HappyEyeballs    .evergreen/happy_eyeballs/server.py: on_control_connected, test_listen,
--                    on_test_connected
--   AwsTester        .evergreen/auth_aws/aws_tester.py: handle_creds
--   MockKms          .evergreen/csfle/kms_http_common.py and kms_http_server.py: do_GET, do_POST
--   Secrets          .evergreen/secrets_handling/setup_secrets.py: get_secrets, write_secrets
--   Common           what these share: lists, results, text as code points, decimals, UTF-8
--
-- A function keeps its name. Code that raises returns a result, code with state is a function of the
-- state, and the methods that change a state and may stop are written with the monad of Common/Exec:
-- what was done before the stop stays done. Text is a list of code points, bytes are numbers.
--
-- What is outside is a parameter: the network of the proxy, the HTTP server and the hash of the
-- download cache, the content of archive members, the parsing of JSON, the answers of AWS, base64,
-- the processes and containers of the host, what the downloaders and the cluster's start return,
-- npm and Node, the output of gpg, git and openssl, and in Mongodl/Component the verification of a
-- signature and the presigned URLs, which Artifacts models.
--
-- Fuel: read_exact has as much as bytes are missing, since each round brings one. _test_pattern has as
-- much as the pattern has components, since each call takes one. The loop of attempts has one more
-- than there are retries. add_dns_remappings, which appends to the list it loops over, has the number
-- of addresses that all names have together. The wait for a container has 61 inspections, and the wait
-- for mongo-orchestration 122 rounds, which a clock that goes on exhausts.
--
-- What SQLite does is in Mongodl/Refresh: BEGIN keeps the rows and tables, and ROLLBACK goes back to
-- what BEGIN kept. What psutil raises for a process is part of the host in Orchestration/Stop.
--
-- Not modelled: argument parsing, logging, threads, links in the file system, the order of rows with
-- equal versions, Unicode digits in patterns, ocsp/mock_ocsp_responder.py, which is derived from
-- libraries of other projects, and the other scripts of the repository, which are listed with the
-- reason in the manifest of the components.
pub mod Artifacts
pub mod AwsTester
pub mod Common
pub mod HappyEyeballs
pub mod Kms
pub mod MockKms
pub mod Mongodl
pub mod Mongosh
pub mod Orchestration
pub mod Release
pub mod Runner
pub mod Secrets
pub mod Socks
