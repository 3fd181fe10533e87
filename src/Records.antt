-- ===== src/Records.antt =====
-- Services that keep documents and have no rules of their own; `J` has the values of `metadata`.
pub mod Offers
pub mod Plans
pub mod Requests
