-- ===== src/Http.antt =====
-- The parts of net/http that the program reads and writes: requests and responses as values.
use skytap.Common.{ℕ, List, Option}
use skytap.Text.{Str}
use skytap.GoMap.{GoMap}

-- http.Request. `path` is URL.Path and `query` is URL.Query(); a nil Body is `none`, and so is a
-- GetBody that has not been set. `content_length` is the length that the request announces.
pub record Request : Type 0 where
  pub method : Str
  pub path : Str
  pub host : Str
  pub query : GoMap (List Str)
  pub headers : GoMap Str
  pub body : Option Str
  pub content_length : ℕ
  pub get_body : Option Str

-- http.Response, as renderRule fills it. The status is the bit pattern of an int.
pub record Response : Type 0 where
  pub status : ℕ
  pub headers : GoMap Str
  pub body : Str
  pub content_length : ℕ
