-- ===== src/Runtime.antt =====
-- What the program takes from the Node.js platform and does not implement: SHA-256
-- (`createHash("sha256")` of node:crypto), the WHATWG parser behind `new URL(text)` and `Date.parse`.
use safecommit_ai.Prelude.{Bool, Option, Text}

-- The fields of a `URL` object that the program reads.
pub record Url : Type 0 where
  pub protocol : Text
  pub hostname : Text
  pub port : Text
  pub username : Text
  pub password : Text
  pub pathname : Text
  pub search : Text
  pub hash : Text
  pub origin : Text

pub record Runtime : Type 0 where
  -- The hexadecimal digest of a text's UTF-8 bytes.
  pub sha256 : Text → Text
  -- `none` is the TypeError of a text that is no URL.
  pub parse_url : Text → Option Url
  -- Number.isNaN(Date.parse(text))
  pub is_bad_date : Text → Bool
