-- ===== src/Fetch.antt =====
-- internal/fetch/executor.go: one HTTP request, with a bound on the response body. The HTTP
-- client of net/http is the parameter `Http`.
pub mod Bounds
use distil_proxy.Base.{
  ℕ, ◌+◌, ◌≤◌, ◌≡◌, Bool, true, false, Option, none, some, List, [], ◌∷◌, ◌++◌, map, ltb, leb,
  if◌then◌else◌, length, take,
}
use distil_proxy.Base.Int.{ℤ, pos, negsuc, pos_part, ◌+ℤ◌, leb_ℤ, ltb_ℤ, wrap64}
pub use distil_proxy.Base.Text.{Bytes}
use distil_proxy.Base.Text.{Text, codes, trim_space, is_empty, join, text_eq}

-- An error of the network, with what `errors.Is` and `websocket.CloseStatus` say of it.
pub record NetError : Type 0 where
  pub message : Text
  pub is_deadline : Bool
  pub is_canceled : Bool
  pub close_status : ℤ

pub record Request : Type 0 where
  pub url : Text
  pub method : Text
  pub headers : List (Text × Text)
  pub body : Bytes
  pub timeout_ms : ℤ

pub record Result : Type 0 where
  pub status : ℤ
  pub headers : List (Text × Text)
  pub body : Bytes
  pub final_url : Text
  pub elapsed_ms : ℤ

pub data FetchError : Type 0 where
  build_request : NetError → FetchError
  execute_request : NetError → FetchError
  read_body : NetError → FetchError
  response_too_large : FetchError

pub data Outcome : Type 0 where
  fetched : Result → Outcome
  failed : FetchError → Outcome

-- What net/http is given, and what it answers. A body is a stream: its bytes, and the error, if
-- any, that a read past them gives.
pub record HttpRequest : Type 0 where
  pub method : Text
  pub url : Text
  pub header : List (Text × Text)
  pub body : Option Bytes

pub record Body : Type 0 where
  pub bytes : Bytes
  pub failure : Option NetError

pub record Response : Type 0 where
  pub status_code : ℤ
  pub header : List (Text × List Text)
  pub body : Body
  pub request_url : Option Text

pub data Reply : Type 0 where
  responded : Response → Reply
  unanswered : NetError → Reply

pub record Http : Type 0 where
  -- `http.NewRequestWithContext`, of a method and a URL
  pub build_error : Text → Text → Option NetError
  -- `http.CanonicalHeaderKey`
  pub canonical : Text → Text
  -- `client.Do`
  pub send : HttpRequest → Reply
  -- `time.Since(started).Milliseconds()`
  pub elapsed : ℤ

abbrev pub default_max_body_bytes : ℕ
default_max_body_bytes = 1_000_000

pub record HttpExecutor : Type 0 where
  pub max_body_bytes : ℤ

unfoldable pub new_http_executor : ℤ → HttpExecutor
new_http_executor max_body_bytes = record {
  max_body_bytes =
      if leb_ℤ max_body_bytes (pos 0) then pos default_max_body_bytes else max_body_bytes;
}

-- `Header.Set`
unfoldable pub set_header : Http → Text → Text → List (Text × Text) → List (Text × Text)
set_header http key value [] = (http.canonical key, value) ∷ []
set_header http key value ((k, v) ∷ header) =
    if text_eq k (http.canonical key)
    then (k, value) ∷ header
    else (k, v) ∷ set_header http key value header

unfoldable pub set_headers : Http → List (Text × Text) → List (Text × Text) → List (Text × Text)
set_headers http [] header = header
set_headers http ((key, value) ∷ headers) header =
    set_headers http headers (set_header http key value header)

pub data ReadAll : Type 0 where
  all_read : Bytes → ReadAll
  read_failed : NetError → ReadAll

-- `io.ReadAll(io.LimitReader(body, n))`: the reader stops after `n` bytes, at once if `n <= 0`.
unfoldable pub read_limited : Body → ℤ → ReadAll
read_limited body n =
    if leb_ℤ n (pos 0)
    then all_read []
    else if leb (pos_part n) (length body.bytes)
    then all_read (take (pos_part n) body.bytes)
    else elim body.failure [ none ↦ all_read body.bytes | some e ↦ read_failed e ]

-- The loop that joins the values of each header.
unfoldable pub flat_headers : List (Text × List Text) → List (Text × Text)
flat_headers [] = []
flat_headers ((key, values) ∷ header) = (key, join values (codes ",")) ∷ flat_headers header

unfoldable pub limit_of : HttpExecutor → ℤ
limit_of e = if leb_ℤ e.max_body_bytes (pos 0) then pos default_max_body_bytes else e.max_body_bytes

-- `Fetch` from the response on.
unfoldable pub read_response : HttpExecutor → Http → Request → Response → Outcome
read_response e http req resp =
    let limit = limit_of e in
    elim (read_limited resp.body (wrap64 (limit +ℤ pos 1))) [
      | read_failed err ↦ failed (read_body err)
      | all_read body ↦
          if ltb_ℤ limit (pos (length body))
          then failed response_too_large
          else fetched (record {
            status = resp.status_code;
            headers = flat_headers resp.header;
            body = body;
            final_url = elim resp.request_url [ none ↦ req.url | some url ↦ url ];
            elapsed_ms = http.elapsed;
          })
    ]

-- The request that `Fetch` builds.
unfoldable pub http_request : Http → Request → HttpRequest
http_request http req =
    let method = trim_space req.method in
    record {
      method = if is_empty method then codes "GET" else method;
      url = req.url;
      header = set_headers http req.headers [];
      body = if is_empty req.body then none else some req.body;
    }

unfoldable pub fetch : HttpExecutor → Http → Request → Outcome
fetch e http req =
    let r = http_request http req in
    elim (http.build_error r.method r.url) [
      | some err ↦ failed (build_request err)
      | none ↦ elim (http.send r) [
        | unanswered err ↦ failed (execute_request err)
        | responded resp ↦ read_response e http req resp
      ]
    ]
