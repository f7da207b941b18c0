-- ===== src/Y86.antt =====
-- labs/04-architecture/sim/misc/isa.c: the Y86-64 instruction set simulator.
pub mod Memory
pub mod ObjectFile
pub mod Alu
pub mod Machine
pub mod Seq
pub mod Differences
pub mod Names
pub mod Assembler
pub mod Copying
mod Tests
mod SeqTests
mod FileTests
