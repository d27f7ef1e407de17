-- ===== src/EndToEnd.antt =====
-- rcopy.c and server.c together: what the server writes is a prefix of the file that the client reads,
-- whatever the network does.
pub mod Pieces
pub mod Client
pub mod Delivery
pub mod Complete
pub mod Refused
mod Tests
