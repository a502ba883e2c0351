-- ===== src/Drivers/BcParks/Responses.antt =====
-- `_get_json` of web_checker/drivers/bcparks_dayuse/driver.py and `decode_json` of parser.py, with
-- the exchange of httpx as a parameter.
pub mod Bounds
use web_checker_py.Prelude.{
  ℕ, ◌+◌, Bool, true, false, not, ◌&&◌, ◌||◌, Option, none, some, List, [], ◌∷◌, ◌++◌, length, Text,
  codes, leb, ltb, nat_beq, Result, ok, err, ◌>>=◌, ◌>>◌, raise_if,
}
use web_checker_py.Config.Values.{Numbers, Value}
use web_checker_py.Drivers.BcParks.Models.{
  BcParksError, parse_error, bad_json, timeout_error, request_error, response_error,
  response_too_large,
}
use web_checker_py.Drivers.BcParks.Config.{Strings, DayUseConfig}

-- The body as `aiter_bytes` gives it: it ends, or an exception of httpx is raised.
pub data Body : Type 0 where
  complete body_timeout body_failed : Body
  chunk : Text → Body → Body

pub record Response : Type 0 where
  pub status_code : ℕ
  pub content_type : Text
  pub body : Body

-- What `client.stream("GET", url, params=params)` gives
pub data Exchange : Type 0 where
  answered : Response → Exchange
  timed_out failed : Exchange

-- httpx, for the headers, URL and parameters of a request, and `json.loads` of UTF-8 text, `none`
-- where the decoding raises.
pub record Client (n : Numbers) : Type 0 where
  pub send : List (Text × Text) → Text → List (Text × Text) → Exchange
  pub load_json : Text → Option (Value n)

-- `part in s`
abbrev is_prefix : Text → Text → Bool
is_prefix [] s = true
is_prefix (c ∷ part) [] = false
is_prefix (c ∷ part) (d ∷ s) = nat_beq c d && is_prefix part s

unfoldable pub is_part : Text → Text → Bool
is_part part [] = is_prefix part []
is_part part (c ∷ s) = is_prefix part (c ∷ s) || is_part part s

-- `response.is_success`
abbrev is_success : ℕ → Bool
is_success status = leb 200 status && leb status 299

-- The loop over the chunks
unfoldable pub read_body : ℕ → Text → Body → Result BcParksError Text
read_body limit body complete = ok body
read_body limit body body_timeout = err timeout_error
read_body limit body body_failed = err request_error
read_body limit body (chunk bytes rest) = do
  raise_if (ltb limit (length body + length bytes)) response_too_large
  read_body limit (body ++ bytes) rest

module _ {n : Numbers} where
  unfoldable pub decode_json : Client n → Text → Result BcParksError (Value n)
  decode_json client body = elim (client.load_json body) [
    | none ↦ err (parse_error bad_json)
    | some v ↦ ok v
  ]

  unfoldable pub read_response : Strings → Client n → ℕ → Exchange → Result BcParksError (Value n)
  read_response s client limit timed_out = err timeout_error
  read_response s client limit failed = err request_error
  read_response s client limit (answered response) = do
    raise_if (not (is_success response.status_code)) response_error
    raise_if (not (is_part (codes "application/json") (s.lower response.content_type)))
        response_error
    body ← read_body limit [] response.body
    decode_json client body

  -- `_get_json`
  unfoldable pub get_json :
      Strings
      → Client n
      → DayUseConfig n
      → List (Text × Text)
      → Text
      → List (Text × Text)
      → Result BcParksError (Value n)
  get_json s client config headers path params =
      read_response s client config.max_response_bytes
        (client.send headers (config.base_url ++ path) params)
