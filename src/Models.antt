-- ===== src/Models.antt =====
-- The tables of backend/app/models, one record for each row type, with the columns in the source's
-- order. Identifiers (UUIDs) are numbers; an instant is a number of microseconds and a date a day
-- number, both in UTC. `created_at` is the column of the mixin in backend/app/db/base.py.
mod Rows
mod Tests
mod Cascades
pub use Rows.*
pub use Tests.*
unfoldable pub use Cascades.*
