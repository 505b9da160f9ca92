-- ===== src/Common.antt =====
-- The package common (common/uri.go, common/time.go): the Uri as data, and time spans.
use phabrik.Base.{
  ℕ, ◌*◌, ◌/◌, ◌%◌, ◌-◌, ◌^◌, ◌<◌, ◌≡◌, String, List, arith, ltb, lt→ltb, if◌then◌else◌,
}

pub data UriType : Type 0 where
  authority_ab_empty absolute rootless empty : UriType

pub data UriHostType : Type 0 where
  none_host ipv4 ipv6 reg_name : UriHostType

-- port is the pattern of an int32.
pub record Uri : Type 0 where
  pub type : UriType
  pub scheme : String
  pub authority : String
  pub host_type : UriHostType
  pub host : String
  pub port : ℕ
  pub path : String
  pub query : String
  pub fragment : String
  pub path_segments : List String

-- TimeSpan and time.Duration count 100 and 1 nanoseconds, both as int64 patterns.
abbrev pub time_span_max : ℕ
time_span_max = 2 ^ 63 - 1

-- The division cuts toward zero.
unfoldable pub time_span_from_duration : ℕ → ℕ
time_span_from_duration d =
    if ltb d (2 ^ 63) then d / 100 else (2 ^ 64 - (2 ^ 64 - d) / 100) % 2 ^ 64

-- The product wraps as an int64 pattern.
unfoldable pub to_duration : ℕ → ℕ
to_duration s = s * 100 % 2 ^ 64

-- The span that a duration which is not negative gives comes back as the duration cut to 100
-- nanoseconds.
pub to_duration-time_span_from_duration :
    (d : ℕ) → d < 2 ^ 63 → to_duration (time_span_from_duration d) ≡ d - d % 100
unfolding to_duration time_span_from_duration
to_duration-time_span_from_duration d h = rw (lt→ltb d (2 ^ 63) h) (omega arith)
