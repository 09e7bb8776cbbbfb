-- ===== src/Tests/Http.antt =====
-- The executor of internal/fetch with a limit of 4 bytes, on a body of 3.
use distil_proxy.Base.{◌≡◌, refl, none, some, [], ◌∷◌, arith}
use distil_proxy.Base.Int.{pos}
use distil_proxy.Base.Text.{codes}
use distil_proxy.Fetch.{
  Request, Result, Response, responded, Http, fetch, fetched, limit_of, flat_headers, flat_headers,
}
use distil_proxy.Fetch.Bounds.{fetch_judges}

abbrev pub hello : Response
hello = record {
  status_code = pos 200;
  header = [];
  body = record { bytes = 1 ∷ 2 ∷ 3 ∷ []; failure = none };
  request_url = some (codes "http://a/b");
}

abbrev pub http : Http
http = record {
  build_error = λ _ _. none;
  canonical = λ key. key;
  send = λ _. responded hello;
  elapsed = pos 12;
}

abbrev pub request : Request
request = record {
  url = codes "http://a/";
  method = codes "GET";
  headers = [];
  body = [];
  timeout_ms = pos 30000;
}

abbrev pub greeting : Result
greeting = record {
  status = pos 200;
  headers = [];
  body = 1 ∷ 2 ∷ 3 ∷ [];
  final_url = codes "http://a/b";
  elapsed_ms = pos 12;
}

fetch_judges_example : fetch (record { max_body_bytes = pos 4 }) http request ≡ fetched greeting
unfolding limit_of flat_headers
fetch_judges_example =
    fetch_judges (record { max_body_bytes = pos 4 }) http request hello 4 refl refl refl
      (omega arith)
