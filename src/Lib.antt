-- ===== src/Lib.antt =====
-- orca's plugin for Proxmox Backup Server (src/).
--
-- The plugin plans changes to a server from what it reads, shows the plan, and on a second call
-- carries out the steps that the caller echoed. `Client` is the REST client, `Api` its typed
-- calls, `Plan` the steps, their confirmation and their application, `Tools` the namespace verbs
-- and the health of datastores, `Groups` the verbs that remove backups, `Jobs` the sync and verify
-- jobs, `Endpoint` the registry of servers with `Tls` for their certificates, `Times` the calendar
-- of what they print, and `Enroll` the verbs that give a backup host its account and take it away.
-- `Enroll` reads the state of the server with `Api`, derives the steps, and hands the confirmed
-- ones to `Plan`. `ConfigBackup` captures the configuration of a server, checks the backup,
-- restores it into the volume of a stopped server, and settles a restore that a crash interrupted.
--
--   Client/Token      src/client.rs: `ApiToken`, `redact_secret`, `validate_token_id`
--   Client/Encode     src/client.rs: `encode`, `encode_query`
--   Client/Request    src/client.rs: `PbsClient`, `build`, `call`, `parse_reply`, `error_message`
--   Plan              src/plan.rs: `Step`, `plan`, `confirm`, `refuse_drifted`, `applied`
--   Plan/Apply        src/plan.rs: `run_with`, `run`, `plan_or_apply`
--   Api               src/api.rs: `User`, `AclEntry`, `is_active`, `users`, `acls_with_digest`
--   Api/Namespaces    src/api.rs: `missing_namespace_chain`, `validate_ns`, `ns_contents`
--   Tools/NamespaceSteps  src/tools.rs: `namespace_create_steps`, `namespace_delete_steps`
--   Tools/NamespaceDelete  src/tools.rs: `namespace_delete`
--   Tools/Health      src/tools.rs: `datastore_health`, `assess_datastore`, `verify_findings`
--   Enroll/Identity   src/enroll.rs: `Identity`, `require_managed`; src/lib.rs: `plain_name`
--   Enroll/State      src/enroll.rs: `State`, `Finding`, `acl_put`; Enroll/Diff: `diff_enroll`
--   Enroll/Revoke     src/enroll.rs: `diff_revoke`
--   Enroll/Stamp      src/enroll.rs: `stamp_acl_digest`
--   Enroll/Run        src/enroll.rs: `check_secret`, `read_state`, `enroll`, `revoke`
--   Times             src/times.rs: `civil_from_days`, `format`, `server_clock`, `parse_offset`
--   Groups            src/groups.rs: `group_delete`, `prune`, `summarize`
--   Jobs              src/jobs.rs: `update_steps`, `create_steps`, `run_steps`, `ensure_steps`
--   Jobs/Tool         src/jobs.rs: `view`, `list_with`, `mutate_with`; Jobs/Fields: `to_map`
--   Tls               src/tls.rs: `Fingerprint`, `TlsPolicy`
--   Endpoint          src/endpoint.rs: `connect_named`, `resolve_ref`, `store_secrets`
--   Endpoint/Create   src/endpoint.rs: `pbs_create`, `pbs_delete`; Endpoint/Update: `pbs_update`
--   ConfigBackup      src/config_backup.rs: `check_rel`, `split_rel`, `descend`, `section_ids`
--   ConfigBackup/Manifest  src/config_backup.rs: `Manifest`, `validate`
--   ConfigBackup/Files  src/config_backup.rs: `Dir`, `Entry`, `open_dir`, `read_capped`, `apply_meta`
--   ConfigBackup/Verify  src/config_backup.rs: `Verification`, `verify`, `verify_meta`, `verified_slot`
--   ConfigBackup/Restore  src/config_backup.rs: `SwapMarker`, `Work`, `make_dirs`, `stage`, `set_aside`
--   ConfigBackup/Restore/Swap  src/config_backup.rs: `Work::swap`
--   ConfigBackup/Restore/Settle  src/config_backup.rs: `Work::finish`, `Work::undo`
--   ConfigBackup/Restore/Materialize  src/config_backup.rs: `materialize_with`
--   ConfigBackup/Scan  src/config_backup.rs: `scan`, `collect`, `stamps`
--   ConfigBackup/Capture  src/config_backup.rs: `hold_locks`, `read_snapshot`, `capture_with`
--   ConfigBackup/LockDown  src/config_backup.rs: `lock_down`
--   ConfigBackup/Container  src/config_backup.rs: `volume_users`, `ensure_stopped`
--   ConfigBackup/Kind  src/config_backup.rs: `find`, `backup_into`, `restore_from`
--   ConfigBackup/Verbs  src/config_backup.rs: `config_backup_detail`, `config_restore`, `config_recover`
--   ConfigBackup/Leftovers  src/config_backup.rs: `Left`, `leftovers`
--   ConfigBackup/Recovery  src/config_backup.rs: `Op`; Slot: `finishing_manifest`, `match_payload`
--   ConfigBackup/Recovery/Plan  src/config_backup.rs: `recovery`; Run: `recover`
--   Orca              the secrets domain and the clock of orca's toolkit
--   Base              texts, JSON values, integers, results and actions
--   Tests             runs at concrete inputs
--
-- Async code runs one call after the other, so an action is a function from a world to a result
-- and a world (`Base.Result.Io`). The world is a parameter: the transport, the JSON codec, the
-- derived decoders, orca's secrets, its table of endpoints and the file system act on it and enter
-- as the records `Net`, `Codec`, `Orca`, `Registry`, `Fs`, `System` and `Host`; what a theorem
-- needs of the file system is a hypothesis (`Disk.LikePosix`, `Files.Quiet.ReadsQuietly`). A text
-- is its list of code points; `byte_len` and `bytes` are its UTF-8 view. A path is a text, so one
-- that is not UTF-8 is not modelled. A `u64` sum wraps (`Api.Namespaces.add_u64`); an `i64` that
-- is only compared is an integer without a bound. Every loop is structural, except for these: the
-- digits of a number, whose fuel is the number plus one, and the walks of a directory, whose fuel
-- is the depth that is allowed plus one, as no directory is entered below it.
--
-- Not modelled: the TLS verifier, the HTTP library and the plugin host, which only call libraries;
-- the system calls below `Dir`, which are the parameter `Fs`; and of the components above the
-- verbs that only list, the garbage collection, the task log and the workload of the service
-- catalogue.
pub mod Base
pub mod Orca
pub mod Client
pub mod ConfigBackup
pub mod Plan
pub mod Api
pub mod Tools
pub mod Times
pub mod Tls
pub mod Endpoint
pub mod Groups
pub mod Jobs
pub mod Enroll
pub mod Tests
