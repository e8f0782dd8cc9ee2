-- ===== src/Sdk.antt =====
-- The SDK, packages/sdk/src: builders of intents and states, adapters for storage, the guard that
-- runs an action only once the engine has allowed it, and the client.
pub mod Builders
pub mod Adapters
pub mod Guard
pub mod Client
