-- ===== src/Tests.antt =====
-- The theorems at concrete inputs, with the parameters of the model instantiated.
mod Fixtures
mod Store
mod Selector
mod Redis
mod State
mod Usage
mod Http
mod Put
mod Startup
mod Classifier
mod Reported
