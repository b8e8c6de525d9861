-- ===== src/Gateway.antt =====
-- Application/NetGateway and Support/Router: the master's poll of the slaves and the slave's answers.
pub mod Router
pub mod Client
pub mod Server
pub mod Exchange
