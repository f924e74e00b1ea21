-- ===== src/Mm.antt =====
-- kern/mm: memory management.
pub mod FirstFit
pub mod BestFit
pub mod Vma
pub mod Swap
pub mod Buddy
pub mod Space
