-- ===== src/Demos.antt =====
-- demos: the programs that put the parts together.
pub mod Echo
pub mod StaticProxy
