-- ===== src/Node/Dispatch/Bounds.antt =====
-- packages/node/src/dispatch.rs: what is certain of the options that are accepted.
use node_reqwest.Prelude.{
  ℕ, suc, ◌+◌, ◌≤◌, ◌≡◌, ◌≢◌, refl, Text, codes, length, length-append, ltb, List, [], ◌∷◌, arith,
}
use node_reqwest.Prelude.Outcome.{ok, map_err, map_err-ok, Holds, Holds->>=, Holds-if, Holds-ok}
use node_reqwest.Prelude.Maps.{insert_key}
use node_reqwest.Error.{Headers, to_string}
use node_reqwest.Dispatcher.{DispatchOptions, max_headers}
use node_reqwest.Dispatcher.Method.{MethodApi, parse_method}
use node_reqwest.Dispatcher.Method.Laws.{as_str-parse_method}
use node_reqwest.Agent.Request.{value_pairs, header_calls}
use node_reqwest.Node.Js.{Js}
use node_reqwest.Node.FfiUtil.{opt_timeout_ms}
use node_reqwest.Node.FfiUtil.Accepts.{Below, opt_timeout_ms-Below}
use node_reqwest.Node.Dispatch.{
  BodyApi, get_string, get_object, origin_of, read_headers, headers_of, body_of,
  parse_dispatch_options,
}

length-value_pairs :
    (key : Text) (values : List Text) → length (value_pairs key values) ≡ length values
length-value_pairs key [] = refl
length-value_pairs key (v ∷ values) = ground (arith, length-value_pairs key values)

length-header_calls-insert_le :
    (key value : Text) (headers : Headers)
    → length (header_calls (insert_key key (value ∷ []) headers))
      ≤ suc (length (header_calls headers))
unfolding header_calls insert_key
length-header_calls-insert_le key value [] = ground arith
length-header_calls-insert_le key value ((k, values) ∷ headers) = ground (
  arith,
  length-header_calls-insert_le key value headers,
  length-append (value_pairs k values) (header_calls headers),
  length-append (value_pairs k values) (header_calls (insert_key key (value ∷ []) headers)),
)

module _ (js : Js) where
  abbrev pub FewCalls : ℕ → Headers → Type 0
  FewCalls n headers = length (header_calls headers) ≤ n

  read_headers-FewCalls :
      (n : ℕ) (obj : js.Value) (keys : List Text) (headers : Headers)
      → length keys + length (header_calls headers) ≤ n
      → Holds (FewCalls n) (read_headers js obj keys headers)
  unfolding read_headers
  read_headers-FewCalls n obj [] headers h = omega (arith, h)
  read_headers-FewCalls n obj (key ∷ keys) headers h =
      Holds->>= (FewCalls n) (get_string js obj key) _ λ value _.
        read_headers-FewCalls n obj keys _
          (omega (arith, h, length-header_calls-insert_le key value headers))

  pub headers_of-FewCalls :
      (obj : js.Value) (keys : List Text) → Holds (FewCalls max_headers) (headers_of js obj keys)
  unfolding headers_of header_calls
  headers_of-FewCalls obj keys =
      Holds-if (FewCalls max_headers) (ltb max_headers (length keys)) _ _ (λ _. tt)
        (λ few. read_headers-FewCalls max_headers obj keys [] (ground (arith, few)))

module _ (js : Js) (api : MethodApi) (bodies : BodyApi js) where
  -- What the core relies on.
  abbrev pub Sound : DispatchOptions api.Method bodies.Body → Type 0
  Sound options =
      (length (header_calls options.headers) ≤ max_headers)
      × (api.as_str options.method ≢ codes "CONNECT")
      × (api.as_str options.method ≢ codes "TRACE")
      × Below js options.headers_timeout_ms
      × Below js options.body_timeout_ms

  parse_dispatch_options-Sound :
      (obj : js.Value) → Holds Sound (parse_dispatch_options js api bodies obj)
  unfolding parse_dispatch_options
  parse_dispatch_options-Sound obj = Holds->>= Sound (get_string js obj (codes "path")) _ λ path _.
      Holds->>= Sound (get_string js obj (codes "method")) _ λ name _.
        Holds->>= Sound (js.get obj (codes "origin")) _ λ origin _.
          Holds->>= Sound (get_string js obj (codes "query")) _ λ query _.
            Holds->>= Sound (map_err (λ e. js.error (to_string e)) (parse_method api name)) _
              λ method parsed. Holds->>= Sound (origin_of js origin) _ λ origin_str _.
                Holds->>= Sound (get_object js obj (codes "headers")) _ λ headers_obj _.
                  Holds->>= Sound (js.own_property_names headers_obj) _ λ keys _.
                    Holds->>= Sound (headers_of js headers_obj keys) _ λ headers read.
                      Holds->>= Sound (opt_timeout_ms js obj (codes "headersTimeout")) _
                        λ headers_timeout first.
                          Holds->>= Sound (opt_timeout_ms js obj (codes "bodyTimeout")) _
                            λ body_timeout second.
                              Holds->>= Sound (js.get obj (codes "bodyBytes")) _ λ bytes _.
                                Holds->>= Sound (body_of js api bodies obj bytes) _ λ body _.
                                  let (_, not_connect, not_trace) =
                                    as_str-parse_method api name method
                                      (map_err-ok _ (parse_method api name) parsed) in
                                  (
                                    Holds-ok (FewCalls js max_headers) _
                                        (headers_of-FewCalls js headers_obj keys) read,
                                    not_connect,
                                    not_trace,
                                    Holds-ok (Below js) _
                                        (opt_timeout_ms-Below js obj (codes "headersTimeout"))
                                        first,
                                    Holds-ok (Below js) _
                                        (opt_timeout_ms-Below js obj (codes "bodyTimeout")) second,
                                  )

  -- Options that are accepted from JavaScript ask for at most 256 header lines, their method is
  -- neither CONNECT nor TRACE, and their timeouts are 64-bit numbers.
  pub Sound-parse_dispatch_options :
      (obj : js.Value) (options : DispatchOptions api.Method bodies.Body)
      → parse_dispatch_options js api bodies obj ≡ ok options
      → Sound options
  Sound-parse_dispatch_options obj options e = Holds-ok Sound _ (parse_dispatch_options-Sound obj) e
