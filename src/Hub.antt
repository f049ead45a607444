-- ===== src/Hub.antt =====
-- src/fin_data_hub: limits on the calls of data sources, and what they cost.
pub mod RateLimit
pub mod Flights
