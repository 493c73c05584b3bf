-- ===== src/Libc.antt =====
-- The C library of the user programs, userspace/libc/src: one module for each family of functions.
pub mod Memory
pub mod Text
pub mod Atoi
pub mod Number
pub mod Digits
pub mod RoundTrip
pub mod Strtoul
pub mod Printf
mod Tests
