-- ===== src/Schema.antt =====
-- The rows that the payment, order, point and cart services read and write (prisma/schema.prisma),
-- the database that holds them, and the results of the services.
--
-- Identifiers, order group numbers and payment keys are texts that these services only compare:
-- they are numbers here. Amounts are whole won. Columns that a modelled service never reads are
-- left out, or bundled in one opaque value (`Payment.details`). A table with a unique key is a
-- function from that key to the row; a table that is searched by other columns is a list.
mod Enums
mod Rows
mod Results
pub use Results.*
pub use Enums.*
pub use Rows.*
