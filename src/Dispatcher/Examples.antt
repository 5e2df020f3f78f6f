-- ===== src/Dispatcher/Examples.antt =====
-- packages/core/src/dispatcher.rs at concrete names and calls.
use node_reqwest.Prelude.{◌≡◌, ◌≢◌, refl, codes, text_eq}
use node_reqwest.Prelude.Outcome.{ok}
use node_reqwest.Dispatcher.Method.{plain_methods, to_ascii_uppercase, parse_method}
use node_reqwest.Dispatcher.Method.Laws.{as_str-parse_method}

get_parses : parse_method plain_methods (codes "get") ≡ ok (codes "GET")
unfolding parse_method text_eq
get_parses = refl

as_str-parse_method_example :
    (codes "GET" ≡ to_ascii_uppercase (codes "get"))
    × (codes "GET" ≢ codes "CONNECT")
    × (codes "GET" ≢ codes "TRACE")
as_str-parse_method_example =
    as_str-parse_method plain_methods (codes "get") (codes "GET") get_parses
