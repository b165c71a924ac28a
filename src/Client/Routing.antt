-- ===== src/Client/Routing.antt =====
-- client/routing_strats.py and the classes Router and RoutingStrategy of client/router.py.
pub mod Names
pub mod Select
pub mod Each
pub mod Target
pub mod Range
pub mod Hash
pub mod RoundRobin
pub mod ByKey
pub mod Router
mod Tests
