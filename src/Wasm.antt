-- ===== src/Wasm.antt =====
-- wasm: the functions that a page calls as WebAssembly.
pub mod Qsort
