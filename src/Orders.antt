-- ===== src/Orders.antt =====
-- src/vertical/restaurants: the order state machine, pricing, and OrderService.
pub mod State
pub mod Pricing
pub mod Hours
pub mod Tables
pub mod Lines
pub mod Services
pub mod Promo
pub mod Checkout
pub mod Transition
pub mod Moves
pub mod Notify
pub mod Keys
pub mod Invariant
pub mod Isolation
pub mod Reads
pub mod History
pub mod Samples
mod Tests
