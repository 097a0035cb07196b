-- ===== src/Posting/Tests.antt =====
-- An agent that posts under another agent's name.
use a2a_platform_go.Prelude.{◌≡◌, refl, true, none, some, [], ◌∷◌, find}
use a2a_platform_go.Sql.{ok}
use a2a_platform_go.Prelude.Text.{trim_space}
use a2a_platform_go.Group.Tests.{env, world, tables}
use a2a_platform_go.Turn.{Platform}
use a2a_platform_go.Auth.{Headers, get_header}
use a2a_platform_go.Posting.{EventReq, json_error, post_event}
use a2a_platform_go.Posting.Sender.{post_event-forged}

abbrev platform : Platform
platform = record {
  rules = λ raw. record { max_speakers = 1; auto_artifact = none; artifact_name = "" };
  hot_messages = λ raw. 0;
  metadata = λ id mode key value. "{}";
  decimal = λ n. "n";
  rfc3339 = λ n. "t";
  can_invoke = λ agent. true;
  invoke =
      λ group event members recent agent role. record { text = " hi"; status = 200; body = "" };
}

abbrev headers : Headers
headers =
    ("X-A2A-Principal", "member") ∷ ("X-A2A-Actor-Type", "agent") ∷ ("X-A2A-Actor-ID", "a") ∷ []

abbrev as_other : EventReq
as_other = record {
  event_type = "message";
  sender_type = "agent";
  sender_id = "b";
  content = "hello";
  metadata = "";
}

post_event-forged_example :
    (post_event platform headers (some as_other) "g" env (world tables)).1.tables ≡ tables
unfolding get_header trim_space find
post_event-forged_example =
    post_event-forged platform headers as_other "g" env (world tables) refl refl

refused :
    (post_event platform headers (some as_other) "g" env (world tables)).0
    ≡ ok (json_error 403 "sender does not match access token")
unfolding post_event find
refused = refl
