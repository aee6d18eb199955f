-- ===== src/Config/Scope.antt =====
-- Which buckets the configured archive takes.
use cdn.Common.{Bool, true, Option, none, some, List, []}
use cdn.Text.{Text, ◌=?◌, trim_space, member}

abbrev is_blank : Text → Bool
is_blank e = trim_space e =? []

abbrev names : Text → Text → Bool
names bucket e = bucket =? trim_space e

abbrev takes : Text → Option (List Text) → Bool
takes bucket none = true
takes bucket (some scope) = member bucket scope
