-- ===== src/Cli/Interactive.antt =====
-- The dialog of the `auth` command: `runInteractiveAuth` and `postInstallJSONWithTimeout` of internal/cli/commands.go.
-- The lines that are typed are a list; the answers of the installation API are the parameter `InstallApi`.
pub mod Obtains
use distil_proxy.Base.{
  ℕ, Bool, true, false, ◌||◌, Option, none, some, List, [], ◌∷◌, ◌++◌, length, if◌then◌else◌,
}
use distil_proxy.Base.Int.{ℤ, pos, ltb_ℤ, leb_ℤ}
use distil_proxy.Base.Text.{Text, Bytes, codes, trim_space, trim_slashes, is_empty, has_prefix}
use distil_proxy.Disk.{Result, ok, err}
use distil_proxy.Disk.Exec.{Action, pure, raise, lift, ◌>>=◌, ◌>>◌, mapping, wrap}

-- `installAuthResponse`
pub record Account : Type 0 where
  pub status : Text
  pub email : Text
  pub api_key : Text
  pub proxy_key : Text
  pub magic_link_token : Text

-- A path below the site, and the payload.
pub data ApiRequest : Type 0 where
  post_key : Text → ApiRequest
  post_register : Text → ApiRequest
  post_verify : Text → Text → ApiRequest

-- What a request comes to: no answer, a body that cannot be read, or a status with the body.
pub data ApiAnswer : Type 0 where
  no_answer unreadable : Text → ApiAnswer
  answered : ℤ → Bytes → ApiAnswer

pub record InstallApi : Type 0 where
  -- the n-th request, at an address
  pub post : ℕ → Text → ApiRequest → ApiAnswer
  pub decode_account : Bytes → Option Account
  -- the field `error` of an object
  pub decode_error : Bytes → Option Text

pub data InstallError : Type 0 where
  no_response read_response refused : Text → InstallError
  bad_status : ℤ → InstallError
  decode_response : InstallError

pub data DialogError : Type 0 where
  read_line : DialogError
  credential_required email_required code_required no_daemon_key : DialogError
  key_failed register_failed verify_failed : InstallError → DialogError

-- A line, with its end or without it at the end of the input, or an error.
pub data Line : Type 0 where
  typed : Text → Line
  broken : Line

pub record Dialog : Type 0 where
  pub lines : List Line
  -- the last one first
  pub requests : List ApiRequest

abbrev pub blank_account : Account
blank_account = record {
  status = [];
  email = [];
  api_key = [];
  proxy_key = [];
  magic_link_token = [];
}

abbrev pub path_of : ApiRequest → Text
path_of (post_key key) = codes "/api/v1/install/key"
path_of (post_register email) = codes "/api/v1/install/register"
path_of (post_verify email code) = codes "/api/v1/install/verify"

abbrev pub is_blank : Text → Bool
is_blank s = is_empty (trim_space s)

unfoldable pub refusal : ℤ → Option Text → InstallError
refusal status none = bad_status status
refusal status (some message) = if is_blank message then bad_status status else refused message

unfoldable pub account_of : Bool → Option Account → Result InstallError Account
account_of true decoded = ok blank_account
account_of false none = err decode_response
account_of false (some a) = ok a

-- What the program asks for next, one line read.
unfoldable pub first_line : List Line → Result DialogError Text × List Line
first_line [] = (ok [], [])
first_line (typed s ∷ rest) = (ok (trim_space s), rest)
first_line (broken ∷ rest) = (err read_line, rest)

-- `readPromptLine`
unfoldable pub read_prompt_line : Action Dialog DialogError Text
read_prompt_line d = let (r, rest) = first_line d.lines in (r, record d { lines = rest })

-- The keys that go into the settings
pub record Keys : Type 0 where
  pub daemon_key : Text
  pub account_email : Text
  pub verification_key : Text

abbrev or_else : Text → Text → Text
or_else s t = if is_empty s then t else s

unfoldable pub keys_of : Account → Keys
keys_of a =
    let daemon_key = or_else (trim_space a.proxy_key) (trim_space a.api_key) in
    record {
      daemon_key = daemon_key;
      account_email = trim_space a.email;
      verification_key = or_else (trim_space a.api_key) daemon_key;
    }

unfoldable pub require : DialogError → Text → Action Dialog DialogError Text
require e s = if is_empty s then raise e else pure s

unfoldable pub checked_keys : Keys → Result DialogError Keys
checked_keys k = if is_empty k.daemon_key then err no_daemon_key else ok k

module _ (api : InstallApi) where
  unfoldable pub judge_answer : ApiAnswer → Result InstallError Account
  judge_answer (no_answer e) = err (no_response e)
  judge_answer (unreadable e) = err (read_response e)
  judge_answer (answered status raw) =
      if ltb_ℤ status (pos 200) || leb_ℤ (pos 300) status
      then err (refusal status (api.decode_error raw))
      else account_of (is_empty raw) (api.decode_account raw)

  module _ (base_url : Text) where
    -- `postInstallJSON`
    unfoldable pub post_install_json : ApiRequest → Action Dialog InstallError Account
    post_install_json request d = (
      judge_answer
          (api.post (length d.requests) (trim_slashes base_url ++ path_of request) request),
      record d { requests = request ∷ d.requests },
    )

    unfoldable pub email_or_prompt : Text → Action Dialog DialogError Text
    email_or_prompt email = if is_empty email then read_prompt_line else pure email

    unfoldable pub is_key : Text → Bool
    is_key credential = has_prefix credential (codes "dk_") || has_prefix credential (codes "dpk_")

    unfoldable pub email_of : Text → Bool → Action Dialog DialogError Text
    email_of credential false = pure credential
    email_of credential true = do
      account ← mapping key_failed (post_install_json (post_key credential))
      email_or_prompt (trim_space account.email)

    -- `runInteractiveAuth` from the email on
    unfoldable pub verify_email : Text → Action Dialog DialogError Keys
    verify_email email = do
      mapping register_failed (post_install_json (post_register email))
      line ← read_prompt_line
      code ← require code_required line
      account ← mapping verify_failed (post_install_json (post_verify email code))
      lift (checked_keys (keys_of account))

    -- `runInteractiveAuth` from the first prompt to the keys
    unfoldable pub obtain_keys : Action Dialog DialogError Keys
    obtain_keys = do
      line ← read_prompt_line
      credential ← require credential_required line
      found ← email_of credential (is_key credential)
      email ← require email_required found
      verify_email email
