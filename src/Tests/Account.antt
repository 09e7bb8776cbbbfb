-- ===== src/Tests/Account.antt =====
-- A look at the account of a key, internal/cli/commands.go, and the `status` command of internal/cli/status.go.
use distil_proxy.Base.{◌≡◌, refl, none, some, [], ◌∷◌}
use distil_proxy.Base.Int.{pos}
use distil_proxy.Base.Text.{codes, trim_space, text_eq, to_lower, has_prefix, trim_slashes}
use distil_proxy.Disk.{ok, write_file, rename, touch, put, same_path}
use distil_proxy.Disk.Exec.{◌>>=◌, continue, attempt, mapping, wrap, lift, ignore, pure, raise}
use distil_proxy.Cli.Auth.{with_key}
use distil_proxy.Config.{
  apply_defaults, validate, validate_api_key, is_supported_log_level, is_one_of, ensure_state_dirs,
  save, store_valid, store, write_config,
}
use distil_proxy.Daemon.Status.{status}
use distil_proxy.Cli.Interactive.{InstallApi, answered, blank_account, judge_answer, account_of}
use distil_proxy.Cli.Account.{
  lookup_account_for_config, lookup_account_by_api_key, keep_email, is_new_email, show_status,
}
use distil_proxy.Cli.Account.Careful.{IsCareful, lookup_account-IsCareful}
use distil_proxy.Cli.Account.Shows.{Shown, show_status-IsShown}
use distil_proxy.Tests.Cli.{url, formats, keyed}
use distil_proxy.Tests.Codec.{json}
use distil_proxy.Tests.Daemon.{sys, host}

abbrev api : InstallApi
api = record {
  post = λ _ _ _. answered (pos 200) (1 ∷ []);
  decode_account = λ _. some (record blank_account { email = codes " c@d " });
  decode_error = λ _. none;
}

lookup_account-IsCareful_example :
    IsCareful sys.faults json api url [] keyed host.disk
      (lookup_account_for_config sys.faults json api url [] keyed host.disk)
lookup_account-IsCareful_example =
    lookup_account-IsCareful sys.faults json api url [] keyed host.disk

show_status-IsShown_example :
    Shown sys json api url [] formats
      (codes "1.0.0")
      host.disk
      (status sys host).0
      (show_status sys json api url [] formats
        (codes "1.0.0")
        (some (codes "/home/a"))
        (pos 9)
        host).0
show_status-IsShown_example =
    show_status-IsShown sys json api url [] formats (codes "1.0.0") (codes "/home/a") (pos 9) host

-- The email of the account is taken, without the blanks around it.
finds :
    (lookup_account_for_config sys.faults json api url [] keyed host.disk).0
    ≡ ok (record blank_account { email = codes " c@d " }, record keyed { email = codes "c@d" })
unfolding lookup_account_for_config lookup_account_by_api_key keep_email is_new_email judge_answer
    account_of save store_valid store write_config ensure_state_dirs write_file rename touch put
    same_path ◌>>=◌ continue attempt ignore mapping wrap lift pure raise with_key apply_defaults
    validate validate_api_key is_supported_log_level is_one_of trim_space to_lower has_prefix
    text_eq trim_slashes
finds = refl
