-- ===== src/Mock.antt =====
-- mocks/mock_server.py, the peer of the client: what its two handlers make of the bytes that they
-- receive.
pub mod WriteHandler
pub mod ReadHandler
mod Tests
