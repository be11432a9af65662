-- ===== src/Topics/Changes.antt =====
-- The transactions of five topic routes (packages/backend/src/routes/topics.ts), each of which
-- holds the team's lock from its first read to its commit: adding, the assignment of the defaults,
-- archiving, restoring and annotating.
-- A table is an unordered collection: an INSERT puts its rows in front.
mod Positions
mod Adding
mod Archiving
mod Annotating
unfoldable pub use Positions.*
unfoldable pub use Adding.*
unfoldable pub use Archiving.*
unfoldable pub use Annotating.*
