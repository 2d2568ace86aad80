-- ===== src/Tests.antt =====
-- Concrete runs of the modelled code, on a page with a few elements.
mod Data
mod Transport
mod Browser
mod Plans
mod DomDiff
mod Crash
mod Dispatch
mod Waiting
mod Versions
mod Index
mod Ladder
mod Actions
