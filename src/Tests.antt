-- ===== src/Tests.antt =====
-- Runs of the model at small inputs, and the theorems at inputs where their hypotheses hold.
mod Configs
mod Controls
mod Downloads
mod Got
mod Files
mod Handshakes
mod Inputs
mod Packets
mod Peers
mod Programs
mod Requests
mod Routed
mod Transfers
mod Uploading
