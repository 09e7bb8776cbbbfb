-- ===== src/Tests/Dialog.antt =====
-- A dialog of the `auth` command, internal/cli/commands.go: an email and a code.
use distil_proxy.Base.{false, ◌≡◌, refl, some, none, List, [], ◌∷◌}
use distil_proxy.Base.Int.{pos}
use distil_proxy.Base.Text.{Text, is_empty, codes, trim_space, has_prefix, trim_slashes}
use distil_proxy.Disk.{ok}
use distil_proxy.Disk.Exec.{◌>>=◌, continue, mapping, wrap, lift, pure, raise}
use distil_proxy.Disk.Success.{run_ok}
use distil_proxy.Cli.Interactive.{
  ApiRequest, InstallApi, answered, blank_account, Dialog, Line, typed, Keys, keys_of, require,
  checked_keys, judge_answer, account_of, post_install_json, email_or_prompt, is_key, email_of,
  verify_email, obtain_keys, read_prompt_line, first_line,
}
use distil_proxy.Cli.Interactive.Obtains.{IsNext, IsLooked, IsObtained, obtain_keys-IsObtained}

abbrev api : InstallApi
api = record {
  post = λ _ _ _. answered (pos 200) (1 ∷ []);
  decode_account = λ _. some (record blank_account { proxy_key = codes " dpk_1 " });
  decode_error = λ _. none;
}

abbrev site : Text
site = codes "https://distil.net"

abbrev dialog : Dialog
dialog = record { lines = typed (codes "a@b ") ∷ typed (codes "123456") ∷ []; requests = [] }

abbrev keys : Keys
keys = record { daemon_key = codes "dpk_1"; account_email = []; verification_key = codes "dpk_1" }

obtains : (obtain_keys api site dialog).0 ≡ ok keys
unfolding obtain_keys verify_email email_of email_or_prompt is_key post_install_json judge_answer
    account_of checked_keys keys_of require read_prompt_line first_line ◌>>=◌ continue mapping wrap
    lift pure raise trim_space has_prefix trim_slashes
obtains = refl

obtain_keys-IsObtained_example :
    (credential email : Text) × (typed_on rest : List Line) × (looked : List ApiRequest) × IsNext
      dialog.lines credential typed_on
    × (is_empty credential ≡ false)
    × IsLooked api site credential typed_on [] email rest looked
    × (is_empty email ≡ false)
    × IsObtained api site email rest looked keys (obtain_keys api site dialog).1.requests
obtain_keys-IsObtained_example =
    obtain_keys-IsObtained api site keys dialog (obtain_keys api site dialog).1
      (run_ok (obtain_keys api site) (ok keys) dialog obtains)
