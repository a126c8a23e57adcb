-- ===== src/Api.antt =====
-- The API objects and the third-party code that the controllers and webhooks call.
pub mod Constants
pub mod Objects
pub mod Flux
pub mod Errors
pub mod Client
pub mod Cue
pub mod World
pub mod Conditions
pub mod Rendering
