-- ===== src/Oauth/Platform.antt =====
-- The functions of Go's standard library that the model takes as they are.
use chat_with_cli.Base.{Str, Option, Bool}

-- What the program reads of a url.URL.
pub record Url : Type 0 where
  pub scheme : Str
  pub host : Str
  pub path : Str
  pub raw_query : Str
  pub fragment : Str

pub record Platform : Type 0 where
  -- url.Parse, with `none` for an error
  pub url_parse : Str → Option Url
  -- strings.EqualFold
  pub equal_fold : Str → Str → Bool
  -- hex.EncodeToString of sha256.Sum256
  pub sha256_hex : Str → Str
  -- base64.RawURLEncoding.EncodeToString of sha256.Sum256
  pub sha256_base64 : Str → Str
  -- base64.RawURLEncoding.DecodeString, with `none` for an error
  pub base64_decode : Str → Option Str
  -- base64.RawURLEncoding.EncodeToString
  pub base64_encode : Str → Str
  -- utf8.ValidString
  pub valid_utf8 : Str → Bool
