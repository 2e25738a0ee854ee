-- ===== src/Vm.antt =====
-- vm.c and vm.h: the allocator over one block of memory, its pages, and the swap file.
pub mod Memory
pub mod Space
pub mod Swap
pub mod Pages
pub mod Boot
pub mod Alloc
pub mod Print
mod Tests
