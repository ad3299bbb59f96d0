-- ===== src/Examples/Platform.antt =====
-- A concrete `Runtime`: a 32-bit polynomial checksum printed as 64 hexadecimal digits for SHA-256, and a
-- table of the few URLs of the examples for the URL parser.
use safecommit_ai.Prelude.{
  List, Option, Text, [], bool_eq, false, if◌then◌else◌, ltb, nat_eq, none, option_eq, some, suc,
  text_eq, zero, ℕ, ◌%◌, ◌*◌, ◌++◌, ◌+◌, ◌/◌, ◌==◌, ◌∷◌,
}
use safecommit_ai.Runtime.{Runtime, Url}
use safecommit_ai.Text.{codes}

-- A digest of its own size that is computed fast.
checksum : ℕ → Text → ℕ
checksum h [] = h
checksum h (c ∷ s) = checksum ((h * 31 + c) % 4294967296) s

hex_of : ℕ → ℕ
hex_of d = if ltb d 10 then d + b'0' else d + 87

hex_digits : ℕ → ℕ → Text
unfolding hex_of
hex_digits zero n = []
hex_digits (suc k) n = hex_of (n % 16) ∷ hex_digits k (n / 16)

toy_digest : Text → Text
unfolding checksum hex_digits
toy_digest t = hex_digits 64 (checksum 7 t)

url_with : Text → Text → Text → Url
url_with protocol hostname pathname = record {
  protocol = protocol;
  hostname = hostname;
  port = [];
  username = [];
  password = [];
  pathname = pathname;
  search = [];
  hash = [];
  origin = protocol ++ (codes "//" ++ hostname);
}

unfoldable pub known_urls : List (Text × Url)
unfolding url_with
known_urls =
    (
      codes "daytona://sandbox/s1/runs/r1",
      url_with (codes "daytona:") (codes "sandbox") (codes "/s1/runs/r1"),
    )
    ∷ (
      codes "daytona://sandbox/s2/runs/r2",
      url_with (codes "daytona:") (codes "sandbox") (codes "/s2/runs/r2"),
    )
    ∷ (
      codes "https://www.braintrust.dev/app/x1",
      url_with (codes "https:") (codes "www.braintrust.dev") (codes "/app/x1"),
    )
    ∷ (
      codes "https://github.com/acme/shop/pull/7",
      url_with (codes "https:") (codes "github.com") (codes "/acme/shop/pull/7"),
    )
    ∷ []

unfoldable pub look_up : List (Text × Url) → Text → Option Url
look_up [] t = none
look_up ((k, u) ∷ es) t = let rest = look_up es t in if k == t then some u else rest

unfoldable pub toy : Runtime
unfolding toy_digest known_urls look_up
toy = record { sha256 = toy_digest; parse_url = look_up known_urls; is_bad_date = λ _. false }
