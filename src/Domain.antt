-- ===== src/Domain.antt =====
-- domain/: the exceptions, value objects, events and aggregates of the program.
pub mod Exceptions
pub mod Decimal
pub mod Money
pub mod SeatId
pub mod Values
pub mod Events
pub mod Order
pub mod Payment
pub mod Plan
