-- ===== src/Spaces/Requests/Approval.antt =====
-- What an approval does.
use rover_tools_orange_copy.Prelude.{ℕ, none, some}
use rover_tools_orange_copy.Store.{RequestStatus, SpaceJoinRequest}

-- The row of a request that this account has approved at this time, with no key material left.
abbrev pub settled : ℕ → ℕ → SpaceJoinRequest → SpaceJoinRequest
settled uid now r = record r {
  status = RequestStatus.approved;
  decided_at = some now;
  decided_by = some uid;
  wrapped_space_keys = none;
  wrapped_by = none;
}
