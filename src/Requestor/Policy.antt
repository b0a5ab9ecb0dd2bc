-- ===== src/Requestor/Policy.antt =====
-- lib/utils/base-requestor.js: the kinds of a url, and which errors a retry policy covers.
use Prim.Native.String.{String}
use text.Mathlib.Text.{◌==◌, starts_with}
use jambonz_feature_server.Prelude.{
  ℕ, Bool, false, ◌&&◌, ◌||◌, Option, none, some, List, [], ◌∷◌, leb, ltb,
}

-- What the code reads of a thrown error; `none` where the property is missing.
pub record Error : Type 0 where
  pub code : Option String
  pub name : Option String
  pub status_code : Option ℕ

abbrev pub is : Option String → String → Bool
is none s = false
is (some t) s = t == s

abbrev pub in_range : ℕ → ℕ → Option ℕ → Bool
in_range lo hi none = false
in_range lo hi (some n) = leb lo n && ltb n hi

unfoldable pub includes : String → List String → Bool
includes s [] = false
includes s (t ∷ ts) = t == s || includes s ts

-- `isCt`, `isRt`, `is4xx` and `is5xx`.
unfoldable pub is_ct : Error → Bool
is_ct e =
    is e.code "ECONNREFUSED"
    || is e.code "ETIMEDOUT"
    || is e.code "ECONNRESET"
    || is e.code "ECONNABORTED"

unfoldable pub is_rt : Error → Bool
is_rt e = is e.name "TimeoutError"

unfoldable pub is_4xx : Error → Bool
is_4xx e = in_range 400 500 e.status_code

unfoldable pub is_5xx : Error → Bool
is_5xx e = in_range 500 600 e.status_code

-- `_shouldRetry`
unfoldable pub should_retry : Error → List String → Bool
unfolding is_ct is_rt is_4xx is_5xx includes
should_retry e rp_values =
    includes "all" rp_values
    || (is_ct e && includes "ct" rp_values)
    || (is_rt e && includes "rt" rp_values)
    || (is_4xx e && includes "4xx" rp_values)
    || (is_5xx e && includes "5xx" rp_values)

-- `_isAbsoluteUrl` and `_isRelativeUrl`, of a url that is a string.
unfoldable pub is_absolute_url : String → Bool
is_absolute_url u =
    starts_with u "https://"
    || starts_with u "http://"
    || starts_with u "ws://"
    || starts_with u "wss://"

unfoldable pub is_relative_url : String → Bool
is_relative_url u = starts_with u "/"
