-- ===== src/Tests.antt =====
-- Runs of the theorems on concrete inputs.
mod Inputs
mod Reservations
mod Services
mod Pure
mod Requests
mod Gateway
mod Preparation
mod Rewriting
mod Bodies
