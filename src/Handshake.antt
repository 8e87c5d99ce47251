-- ===== src/Handshake.antt =====
-- job.c, connection.c and peer.c together: from the question for chunks to the lists of those that
-- are asked for.
pub mod Offers
pub mod Arrivals
pub mod Claims
