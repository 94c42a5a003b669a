-- ===== src/Fetch.antt =====
-- The requests that the browser code hands to `fetch`, and what the network may answer. `fetch` is
-- the platform's: a reply is an input of the model, whether the call is refused or answered.
use block_chain.Common.{String, Bool, List, [], ◌∷◌, Option, none, some}
use block_chain.Js.{Value, Fields, object, Number, Error, Result, ok, thrown}

-- The body is the value that `JSON.stringify` is given.
pub record Request : Type 0 where
  pub method : String
  pub url : String
  pub headers : List (String × String)
  pub body : Option Value
  pub credentials : Option String

-- `json` is what `await res.json()` comes to: the parsed value, or the parser's error.
pub record Response : Type 0 where
  pub ok : Bool
  pub status : Number
  pub json : Result Value

pub data Reply : Type 0 where
  refused : Error → Reply
  answered : Response → Reply

-- `const res = await fetch(…)`.
abbrev pub response : Reply → Result Response
response (refused e) = thrown e
response (answered r) = ok r

abbrev pub get_request : String → Request
get_request url = record {
  method = "GET";
  url = url;
  headers = [];
  body = none;
  credentials = none;
}

abbrev pub post_json : String → Fields → Request
post_json url fields = record {
  method = "POST";
  url = url;
  headers = ("Content-Type", "application/json") ∷ [];
  body = some (object fields);
  credentials = none;
}
