-- ===== src/Tests.antt =====
-- Runs of the model on concrete inputs, and the theorems applied to them.
mod Billing
mod Quiz
mod Scan
mod Auth
mod Ai
mod Worker
mod Practice
mod Middleware
