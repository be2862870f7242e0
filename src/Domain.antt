-- ===== src/Domain.antt =====
-- common/domain: the data that the gateway and the client exchange. A Go string type with named
-- constants is a data type with a constructor for each constant, `unset` for "" and `other` for
-- the values that no constant names; a string type that no modelled code looks into is a `Str`.
pub mod Json
pub mod Machine
pub mod Thread
pub mod Turn
pub mod Environment
pub mod Config
pub mod Timeline
pub mod Base64
pub mod ThreadId
pub mod Protocol
