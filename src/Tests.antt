-- ===== src/Tests.antt =====
-- Concrete states of the modelled code, the tests that run on them, and the theorems at inputs
-- that meet their hypotheses.
mod Stock
mod Channel
mod Bus
mod Prices
mod Tills
mod Dispatch
mod Shop
mod Switches
mod Listings
mod Ingress
mod Market
mod Sales
mod Staff
