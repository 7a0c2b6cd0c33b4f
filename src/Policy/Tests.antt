-- ===== src/Policy/Tests.antt =====
-- The policy client at concrete replies.
use agent_builder.Common.{◌≡◌, ◌↔◌, some, [], true}
use agent_builder.Common.Text.{codes}
use agent_builder.Policy.{allow, RawResponse, decide}
use agent_builder.Policy.Laws.{IsAllowing, allow_iff-IsAllowing}

abbrev reply : RawResponse
reply = record { decision = codes "allow"; obligations = []; reason = []; has_wire_err = true }

allow_iff-IsAllowing_example : ((decide (some reply)).0.decision ≡ allow) ↔ IsAllowing (some reply)
allow_iff-IsAllowing_example = allow_iff-IsAllowing (some reply)
