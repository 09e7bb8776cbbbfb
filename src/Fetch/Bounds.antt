-- ===== src/Fetch/Bounds.antt =====
-- The bound on a response.
use distil_proxy.Base.{
  ℕ, suc, ◌+◌, ◌≤◌, ◌<◌, ◌≡◌, refl, none, some, [], ◌∷◌, arith, ltb, leb, if◌then◌else◌, length,
  take, zero,
}
use distil_proxy.Base.Int.{pos, ◌+ℤ◌, max_i64, wrap64}
use distil_proxy.Fetch.{
  Bytes, Request, Result, Outcome, fetched, failed, response_too_large, read_body, Body, Response,
  responded, Http, HttpExecutor, limit_of, http_request, read_limited, read_response, fetch,
  all_read, read_failed, flat_headers, new_http_executor, default_max_body_bytes,
}

-- What the executor makes of a body under a limit, without the limited reader: a body longer than
-- the limit is refused, a broken one fails, any other is returned whole.
abbrev judged : ℕ → Body → (Bytes → Outcome) → Outcome
judged limit body result =
    if ltb limit (length body.bytes)
    then failed response_too_large
    else elim body.failure [ none ↦ result body.bytes | some e ↦ failed (read_body e) ]

length-take_of_le : (n : ℕ) (xs : Bytes) → n ≤ length xs → length (take n xs) ≡ n
length-take_of_le zero xs h = refl
length-take_of_le (suc n) [] h = omega arith
length-take_of_le (suc n) (x ∷ xs) h = omega (arith, length-take_of_le n xs (omega arith))

read_limited_lem :
    (body : Body) (limit : ℕ)
    → limit < max_i64
    → read_limited body (wrap64 (pos limit +ℤ pos 1)) ≡ (
        if leb (limit + 1) (length body.bytes)
        then all_read (take (limit + 1) body.bytes)
        else elim body.failure [ none ↦ all_read body.bytes | some e ↦ read_failed e ])
unfolding read_limited wrap64
read_limited_lem body limit h = ground arith

-- The response of a request, as a result with a given body.
abbrev result_of : Http → Request → Response → Bytes → Outcome
result_of http req resp body = fetched (record {
  status = resp.status_code;
  headers = flat_headers resp.header;
  body = body;
  final_url = elim resp.request_url [ none ↦ req.url | some url ↦ url ];
  elapsed_ms = http.elapsed;
})

read_response_judges :
    (e : HttpExecutor) (http : Http) (req : Request) (resp : Response) (limit : ℕ)
    → limit_of e ≡ pos limit
    → limit < max_i64
    → read_response e http req resp ≡ judged limit resp.body (result_of http req resp)
unfolding read_response
read_response_judges e http req resp limit eq fits =
    rw (eq, read_response, read_limited_lem resp.body limit fits)
      (ground (arith, length-take_of_le (limit + 1) resp.body.bytes))

-- Once a response has come, `Fetch` refuses it exactly when its body is longer than the limit,
-- whatever stands behind the limit; it reports a read error of a body within the limit; and it
-- returns any other body whole, with the status and the flattened headers. The limit is any
-- number below 2^63 - 1.
pub fetch_judges :
    (e : HttpExecutor) (http : Http) (req : Request) (resp : Response) (limit : ℕ)
    → http.build_error (http_request http req).method (http_request http req).url ≡ none
    → http.send (http_request http req) ≡ responded resp
    → limit_of e ≡ pos limit
    → limit < max_i64
    → fetch e http req ≡ judged limit resp.body (result_of http req resp)
fetch_judges e http req resp limit built sent eq fits =
    unfold fetch in rw (built, fetch, sent) (read_response_judges e http req resp limit eq fits)

-- With the executor that the daemon makes, no result ever has a body of more than a million bytes.
pub fetch_bounded :
    (http : Http) (req : Request) {r : Result}
    → fetch (new_http_executor (pos default_max_body_bytes)) http req ≡ fetched r
    → length r.body ≤ default_max_body_bytes
unfolding fetch read_response limit_of new_http_executor
fetch_bounded http req {r} h = ground arith
