-- ===== src/Store/Empty.antt =====
-- A database with no rows, for the runs at concrete inputs.
use rover_tools_orange_copy.Prelude.{[]}
use rover_tools_orange_copy.Store.{Db}

abbrev pub empty_db : Db
empty_db = record {
  entries = [];
  cursors = [];
  blobs = [];
  spaces = [];
  invites = [];
  memberships = [];
  join_requests = [];
  comments = [];
  removals = [];
  profiles = [];
  user_settings = [];
  devices = [];
  announcements = [];
}
