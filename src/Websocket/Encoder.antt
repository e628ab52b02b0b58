-- ===== src/Websocket/Encoder.antt =====
-- source/websocket_encoder.c: the data, the state functions, the loop over them, and the proofs.
pub mod Types
pub mod Steps
pub mod Pending
pub mod Conserve
pub mod HeaderSteps
pub mod PayloadStep
pub mod Emission
pub mod Completion
pub mod StartFrame
