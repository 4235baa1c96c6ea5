-- ===== src/Tests.antt =====
-- The theorems at concrete inputs, and runs of the code at inputs that can be followed in the
-- source.
mod Lba
mod Table
mod Unlink
mod Ino
mod Dir
mod Super
mod Readdir
mod Create
mod Cuckoo
mod Mount
mod File
