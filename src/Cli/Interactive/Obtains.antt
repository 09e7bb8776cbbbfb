-- ===== src/Cli/Interactive/Obtains.antt =====
-- Whose keys the dialog of the `auth` command, internal/cli/commands.go, comes to.
use mathlib.Core.Path.{subst}
use distil_proxy.Base.{
  ◌≡◌, refl, sym, ap, ◌∙◌, ◌⊎◌, inl, inr, Bool, true, false, ◌||◌, List, ◌∷◌, ◌++◌, length, arith,
  if◌then◌else◌,
}
use distil_proxy.Base.Text.{Text, codes, trim_slashes, trim_space, is_empty, has_prefix}
use distil_proxy.Disk.{Result, ok, err}
use distil_proxy.Disk.Exec.{pure, raise, lift, mapping}
use distil_proxy.Disk.Success.{bind_ok, mapping_ok}
use distil_proxy.Cli.Interactive.{
  Account, ApiRequest, post_key, post_register, post_verify, InstallApi, InstallError, DialogError,
  key_failed, register_failed, verify_failed, Dialog, path_of, Keys, keys_of, require, checked_keys,
  judge_answer, post_install_json, email_or_prompt, is_key, email_of, verify_email, obtain_keys,
  read_prompt_line, code_required, email_required, credential_required, no_daemon_key, Line,
  first_line,
}

require_ok :
    (e : DialogError) (s t : Text) (d d' : Dialog)
    → require e s d ≡ (ok t, d')
    → (is_empty t ≡ false) × (s ≡ t) × (d ≡ d')
unfolding require pure raise
require_ok e s t d d' h = split (is_empty s) refl h
  where
    split :
        (b : Bool)
        → is_empty s ≡ b
        → (if b then raise e else pure s) d ≡ (ok t, d')
        → (is_empty t ≡ false) × (s ≡ t) × (d ≡ d')
    split true k h = ground arith
    split false k h = (ground arith, ground arith, ap (λ r. r.1) h)

-- The next line is the text, and others are behind it.
abbrev pub IsNext : List Line → Text → List Line → Type 0
IsNext lines s rest = first_line lines ≡ (ok s, rest)

prompt_ok :
    (s : Text) (d d' : Dialog)
    → read_prompt_line d ≡ (ok s, d')
    → IsNext d.lines s d'.lines × (d'.requests ≡ d.requests)
unfolding read_prompt_line
prompt_ok s d d' h = (ap (λ r. (r.0, r.1.lines)) h, sym (ap (λ r. r.1.requests) h))

module _ (api : InstallApi) (base_url : Text) where
  -- The request that comes behind these was answered with the account.
  unfoldable pub IsAnswered : List ApiRequest → ApiRequest → Account → Type 0
  IsAnswered before request a =
      judge_answer api (api.post (length before) (trim_slashes base_url ++ path_of request) request)
      ≡ ok a

  posted :
      (request : ApiRequest) (g : InstallError → DialogError) (a : Account) (d d' : Dialog)
      → mapping g (post_install_json api base_url request) d ≡ (ok a, d')
      → (d'.requests ≡ request ∷ d.requests)
        × (d'.lines ≡ d.lines)
        × IsAnswered d.requests request a
  unfolding IsAnswered
  posted request g a d d' h =
      let k = mapping_ok g (post_install_json api base_url request) a d d' h in
      unfold post_install_json in
      (sym (ap (λ r. r.1.requests) k), sym (ap (λ r. r.1.lines) k), ap (λ r. r.0) k)

  -- The email is the account's, or the next line where the account has none.
  unfoldable pub IsEmailOf : Account → List Line → Text → List Line → Type 0
  IsEmailOf a lines email rest =
      ((is_empty (trim_space a.email) ≡ false) × (email ≡ trim_space a.email) × (rest ≡ lines))
      ⊎ ((is_empty (trim_space a.email) ≡ true) × IsNext lines email rest)

  prompted :
      (a : Account) (found : Text) (d d' : Dialog)
      → email_or_prompt api base_url (trim_space a.email) d ≡ (ok found, d')
      → IsEmailOf a d.lines found d'.lines × (d'.requests ≡ d.requests)
  unfolding email_or_prompt IsEmailOf
  prompted a found d d' h = split (is_empty (trim_space a.email)) refl h
    where
      split :
          (b : Bool)
          → is_empty (trim_space a.email) ≡ b
          → (if b then read_prompt_line else pure (trim_space a.email)) d ≡ (ok found, d')
          → IsEmailOf a d.lines found d'.lines × (d'.requests ≡ d.requests)
      split true e h = let (n, r) = prompt_ok found d d' h in (inr (e, n), r)
      split false e h =
          unfold pure in
          (inl (e, ground arith, sym (ap (λ r. r.1.lines) h)), sym (ap (λ r. r.1.requests) h))

  -- An email is itself the email. A key was posted and answered with an account, whose email it is.
  unfoldable pub IsLooked :
      Text → List Line → List ApiRequest → Text → List Line → List ApiRequest → Type 0
  IsLooked credential lines before email rest after =
      ((has_prefix credential (codes "dk_") || has_prefix credential (codes "dpk_") ≡ false)
        × (email ≡ credential)
        × (rest ≡ lines)
        × (after ≡ before))
      ⊎ ((has_prefix credential (codes "dk_") || has_prefix credential (codes "dpk_") ≡ true)
          × (after ≡ post_key credential ∷ before)
          × (account : Account) × IsAnswered before (post_key credential) account
          × IsEmailOf account lines email rest)

  email_of-IsLooked :
      (credential found : Text) (d d' : Dialog)
      → email_of api base_url credential (is_key api base_url credential) d ≡ (ok found, d')
      → IsLooked credential d.lines d.requests found d'.lines d'.requests
  unfolding is_key
  email_of-IsLooked credential found d d' =
      split (has_prefix credential (codes "dk_") || has_prefix credential (codes "dpk_")) refl
    where
      looked :
          (has_prefix credential (codes "dk_") || has_prefix credential (codes "dpk_")) ≡ true
          → (a : Account) (d1 : Dialog)
          → (d1.requests ≡ post_key credential ∷ d.requests)
            × (d1.lines ≡ d.lines)
            × IsAnswered d.requests (post_key credential) a
          → IsEmailOf a d1.lines found d'.lines × (d'.requests ≡ d1.requests)
          → IsLooked credential d.lines d.requests found d'.lines d'.requests
      looked k a d1 (r, l, answer) (e, q) =
          unfold IsLooked in
          inr (k, q ∙ r, a, answer, subst (λ ls. IsEmailOf a ls found d'.lines) l e)

      split :
          (b : Bool)
          → (has_prefix credential (codes "dk_") || has_prefix credential (codes "dpk_")) ≡ b
          → email_of api base_url credential b d ≡ (ok found, d')
          → IsLooked credential d.lines d.requests found d'.lines d'.requests
      split false k h =
          unfold IsLooked email_of pure in
          inl (k, ground arith, sym (ap (λ r. r.1.lines) h), sym (ap (λ r. r.1.requests) h))
      split true k h =
          unfold email_of in
          let (a, d1, e1, e2) = bind_ok _ _ found d d' h in
          looked k a d1 (posted (post_key credential) key_failed a d d1 e1)
            (prompted a found d1 d' e2)

  -- The account's proxy key is the daemon's, or its API key where that is blank; neither is blank then. Pages are
  -- fetched with the API key, or with the daemon's where that is blank.
  unfoldable pub IsKeysOf : Account → Keys → Type 0
  IsKeysOf a keys =
      (keys.daemon_key ≡ (
        if is_empty (trim_space a.proxy_key) then trim_space a.api_key else trim_space a.proxy_key))
      × (keys.account_email ≡ trim_space a.email)
      × (keys.verification_key
          ≡ (if is_empty (trim_space a.api_key) then keys.daemon_key else trim_space a.api_key))
      × (is_empty keys.daemon_key ≡ false)

  -- The keys are an account's, which the API gave for the next line as the code that was asked for at the email.
  unfoldable pub IsObtained : Text → List Line → List ApiRequest → Keys → List ApiRequest → Type 0
  IsObtained email lines before keys after =
      (registered account : Account) × (code : Text) × (rest : List Line) × IsAnswered before
        (post_register email) registered
      × IsNext lines code rest
      × (is_empty code ≡ false)
      × IsAnswered (post_register email ∷ before) (post_verify email code) account
      × (after ≡ post_verify email code ∷ post_register email ∷ before)
      × IsKeysOf account keys

  checked_ok :
      (keys k : Keys) (d d' : Dialog)
      → lift (checked_keys k) d ≡ (ok keys, d')
      → (k ≡ keys) × (is_empty k.daemon_key ≡ false) × (d ≡ d')
  unfolding lift checked_keys
  checked_ok keys k d d' h = split (is_empty k.daemon_key) refl (ap (λ r. r.0) h)
    where
      split :
          (b : Bool)
          → is_empty k.daemon_key ≡ b
          → ◌≡◌ {A = Result DialogError Keys} (if b then err no_daemon_key else ok k) (ok keys)
          → (k ≡ keys) × (is_empty k.daemon_key ≡ false) × (d ≡ d')
      split true e q = ground arith
      split false e q = (ground arith, e, ap (λ r. r.1) h)

  keys_of-IsKeysOf :
      (a : Account) (keys : Keys)
      → keys_of a ≡ keys
      → is_empty (keys_of a).daemon_key ≡ false
      → IsKeysOf a keys
  keys_of-IsKeysOf a keys e filled =
      subst (IsKeysOf a) e (unfold IsKeysOf in unfold keys_of in (refl, refl, refl, filled))

  verify_email-IsObtained :
      (email : Text) (keys : Keys) (d d' : Dialog)
      → verify_email api base_url email d ≡ (ok keys, d')
      → IsObtained email d.lines d.requests keys d'.requests
  unfolding verify_email IsObtained
  verify_email-IsObtained email keys d d' h =
      let (registered, d1, e1, f1) = bind_ok _ _ keys d d' h in
      let (line, d2, e2, f2) = bind_ok _ _ keys d1 d' f1 in
      let (code, d3, e3, f3) = bind_ok _ _ keys d2 d' f2 in
      let (account, d4, e4, f4) = bind_ok _ _ keys d3 d' f3 in
      let (r1, l1, a1) = posted (post_register email) register_failed registered d d1 e1 in
      let (n2, r2) = prompt_ok line d1 d2 e2 in
      let (c, same, d23) = require_ok code_required line code d2 d3 e3 in
      let (r4, l4, a4) = posted (post_verify email code) verify_failed account d3 d4 e4 in
      let (k, filled, d45) = checked_ok keys (keys_of account) d4 d' f4 in
      let before : d3.requests ≡ post_register email ∷ d.requests =
        ap (λ n. n.requests) (sym d23) ∙ r2 ∙ r1 in
      (
        registered,
        account,
        code,
        d2.lines,
        a1,
        subst (λ ls. IsNext ls code d2.lines) l1 (subst (λ s. IsNext d1.lines s d2.lines) same n2),
        c,
        subst (λ rs. IsAnswered rs (post_verify email code) account) before a4,
        ap (λ n. n.requests) (sym d45) ∙ r4 ∙ ap (λ rs. post_verify email code ∷ rs) before,
        keys_of-IsKeysOf account keys k filled,
      )

  -- If the dialog of the `auth` command comes to keys, then the first line is a credential that is not blank. Where
  -- it begins with `dk_` or `dpk_`, it was posted as a key and answered with an account, and the email is that
  -- account's, or the next line where the account has none; otherwise nothing was posted for it, and it is
  -- the email. The email is not blank. A code was asked for at this email, which the API answered; the next line is
  -- the code, and is not blank; and this email with the code was posted, which the API answered with an account. No
  -- other request was made. The keys are that account's: its proxy key for the daemon, or its API key where
  -- that is blank, and the daemon's key is not empty.
  pub obtain_keys-IsObtained :
      (keys : Keys) (d d' : Dialog)
      → obtain_keys api base_url d ≡ (ok keys, d')
      → (credential email : Text) × (typed_on rest : List Line) × (looked : List ApiRequest)
        × IsNext d.lines credential typed_on
        × (is_empty credential ≡ false)
        × IsLooked credential typed_on d.requests email rest looked
        × (is_empty email ≡ false)
        × IsObtained email rest looked keys d'.requests
  unfolding obtain_keys
  obtain_keys-IsObtained keys d d' h =
      let (line, d1, e1, f1) = bind_ok _ _ keys d d' h in
      let (credential, d2, e2, f2) = bind_ok _ _ keys d1 d' f1 in
      let (found, d3, e3, f3) = bind_ok _ _ keys d2 d' f2 in
      let (email, d4, e4, f4) = bind_ok _ _ keys d3 d' f3 in
      let (n1, r1) = prompt_ok line d d1 e1 in
      let (c, same, d12) = require_ok credential_required line credential d1 d2 e2 in
      let (filled, found_same, d34) = require_ok email_required found email d3 d4 e4 in
      (
        credential,
        email,
        d1.lines,
        d4.lines,
        d4.requests,
        subst (λ s. IsNext d.lines s d1.lines) same n1,
        c,
        moved credential found email d1 d2 d3 d4 r1 d12 found_same d34
            (email_of-IsLooked credential found d2 d3 e3),
        filled,
        verify_email-IsObtained email keys d4 d' f4,
      )
    where
      moved :
          (credential found email : Text) (d1 d2 d3 d4 : Dialog)
          → d1.requests ≡ d.requests
          → d1 ≡ d2
          → found ≡ email
          → d3 ≡ d4
          → IsLooked credential d2.lines d2.requests found d3.lines d3.requests
          → IsLooked credential d1.lines d.requests email d4.lines d4.requests
      moved credential found email d1 d2 d3 d4 r e f g k =
          subst (λ n. IsLooked credential d1.lines d.requests email n.lines n.requests) g
            (subst (λ t. IsLooked credential d1.lines d.requests t d3.lines d3.requests) f
              (subst (λ rs. IsLooked credential d1.lines rs found d3.lines d3.requests) r
                (subst (λ n. IsLooked credential n.lines n.requests found d3.lines d3.requests)
                  (sym e) k)))
