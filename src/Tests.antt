-- ===== src/Tests.antt =====
-- Runs of the model at fixed inputs, and the theorems at inputs that meet their hypotheses.
mod Fixtures
mod Decoding
mod Devices
mod Numbers
mod Running
mod Machines
mod Printing
mod Programs
