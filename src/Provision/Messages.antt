-- ===== src/Provision/Messages.antt =====
-- pkg/plugin/provision/status.go: the messages on the progress of a deployment.
use Prim.Native.String.{◌++◌}
use cofidectl.Common.{String, ◌==◌, Bool, true, false, not, Option, none, some, if◌then◌else◌}

pub record Status : Type 0 where
  pub stage : String
  pub message : String
  pub done : Bool
  pub error : Option String

abbrev pub status_ok : String → String → Status
status_ok stage message = record { stage = stage; message = message; done = false; error = none }

abbrev pub status_done : String → String → Status
status_done stage message = record { stage = stage; message = message; done = true; error = none }

-- `StatusError`, given the text of the error.
abbrev pub status_error : String → String → String → Status
status_error stage message text = record {
  stage = stage;
  message = message;
  done = true;
  error = some text;
}

pub record StatusBuilder : Type 0 where
  pub trust_zone : String
  pub cluster : String

abbrev for_cluster : String → String → String
for_cluster cluster message = if not (cluster == "") then message ++ " for " ++ cluster else message

abbrev in_zone : String → String → String
in_zone zone message = if not (zone == "") then message ++ " in " ++ zone else message

unfoldable pub get_message : StatusBuilder → String → String
get_message sb message = in_zone sb.trust_zone (for_cluster sb.cluster message)

-- The methods `Ok`, `Done` and `Error` of the builder.
abbrev pub builder_ok : StatusBuilder → String → String → Status
builder_ok sb stage message = status_ok stage (get_message sb message)

abbrev pub builder_done : StatusBuilder → String → String → Status
builder_done sb stage message = status_done stage (get_message sb message)

abbrev pub builder_error : StatusBuilder → String → String → String → Status
builder_error sb stage message text = status_error stage (get_message sb message) text
