-- ===== src/Tests.antt =====
-- Runs of the model at concrete inputs, and the theorems at inputs that meet their hypotheses.
mod World
mod Sessions
mod Frames
mod Sweeps
mod Minting
mod Gate
mod Journeys
mod Terminal
mod EndToEnd
mod Races
mod Panel
mod Opening
mod Pages
mod Enrolling
