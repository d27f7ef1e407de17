-- ===== src/Example.antt =====
-- example/rcopy-example.c and example/server-example.c: the loops of the sample client and server.
-- The files declare the functions of the states and the calls `recv_buf` and `fork`, and do not hold
-- them: they are parameters. `World` is what these functions work on apart from the loops' own
-- variables: `*server`, `*client`, the sockets, the files.
pub mod Client
pub mod Server
mod Tests
