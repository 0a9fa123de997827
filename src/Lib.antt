-- ===== src/Lib.antt =====
-- The sync server of Orange Copy Paste (a FastAPI service over Postgres), modelled.
--
-- A request handler is a function from the database, its arguments and what it reads from outside
-- (the clock, new UUIDs) to its answer and the database that its transaction leaves. An answer is
-- a value or the status code and detail of an HTTPException (Prelude/Replies).
--
-- Prelude: tests, lists, signed integers, tables as lists of rows with the statements that the
--   services run on them, and the lemmas about these.
-- Store: the tables of src/*/models.py, in one record `Db`; Store/Wraps is the JSON column
--   `wrapped_keys`, by what `json.loads` makes of it, with the errors that its callers do not catch.
-- Sync: src/sync/service.py. Removals is `record_space_removals` of src/spaces/service.py. Entry
--   and Upsert are `_upsert_entry` with its helpers, Push is `push_entries`, with the proofs in the
--   modules below it; Page is `_page`; Pull is `pull_entries` with `entry_view`, `merge_cursors` and
--   `_pull_removals`; Account is `update_cursor` and `account_breakdown`.
-- Spaces: src/spaces. Members and Keys are service.py (who is in a space, and the handover of its
--   key), as are Takedown (`remove_entry_from_space`), Comments and Deletion (`delete_space`).
--   Requests is join_requests.py, from the code that `normalize_invite_code` returns on, and
--   Invites is invites.py. The modules below each prove what their names say. A handler that
--   commits twice does so without a refusal in between, so it is one function too.
-- Settings: src/settings/service.py.
-- Blobs: src/blobs/service.py. What the object store answers is a parameter, `Storage`: the head of
--   an object, which deletions succeed, and the form in which it reports a checksum.
-- Maintenance: the hourly jobs of src/background.py, each of which may raise (`Faults`).
-- Auth: src/auth/service.py, with `ensure_profile` in Auth/Bootstrap. base64 and SHA-256 are a
--   parameter, `Proofs`; the salt and the default quota of a new profile are `Defaults`. KeyWrites is
--   the writes of key material as one type, Keys and Devices are sequences of calls. Tokens is
--   src/auth/tokens.py, with PyJWT as a parameter, `Jwt`. What `_verify` asks of `jwt.decode`
--   is its argument, `DecodeOptions`.
-- Dependencies: the device check of src/dependencies.py with its cache, and the route of
--   src/auth/router.py that revokes a device.
-- Realtime: the connection hub of src/realtime.py, with `_trim_entry_for` in Realtime/Views and the
--   presence that Redis keeps in Realtime/Presence. A call that holds the hub's lock is one step.
--   Realtime/Sockets is the start and the end of a socket, and the presence sweep of
--   src/background.py.
-- Announcements: src/announcements/service.py. Admin: src/admin/service.py, with the foreign keys
--   that migrations/versions declares on the profiles.
-- Routes: the routes of src/sync/router.py and src/spaces/router.py that publish, each as its
--   answer, its events in order and the database. Middleware: the limit on bodies of
--   src/middleware.py, for an application that stops at a disconnect.
--
-- Bounds. Numbers are unbounded: the columns are 64-bit, and timestamps are taken as not negative.
-- The one fuel is that of `pull_all`, the rounds of a device that pulls until it is told that it
-- has caught up; it is enough when it exceeds the number of rows to come.
--
-- Errors. `none` and a reply of 500 stand for an exception that ends the request. One is a text in
-- `wrapped_keys` at which `json.loads` raises more than a JSONDecodeError; a dict that it has read is
-- taken to be one that `json.dumps` can write back.
--
-- Not modelled: request validation by pydantic, rate limits, the handshake and the loop
-- of a socket, the listener, Supabase, email, PyJWT and file storage themselves, and what other
-- transactions do while a handler runs: a push holds its account's advisory lock, a pull is taken
-- on tables that do not change meanwhile, and a device check is one step.
pub mod Prelude
pub mod Store
pub mod Admin
pub mod Announcements
pub mod Auth
pub mod Blobs
pub mod Dependencies
pub mod Maintenance
pub mod Middleware
pub mod Realtime
pub mod Routes
pub mod Settings
pub mod Spaces
pub mod Sync
