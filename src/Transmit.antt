-- ===== src/Transmit.antt =====
-- transmit.c: the command line, the example data, the messages in turn, and the whole program.
pub mod Args
pub mod Example
pub mod Send
pub mod Main
pub mod Threads
pub mod Props
