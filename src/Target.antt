-- ===== src/Target.antt =====
-- src/target_model.hpp, src/target.hpp, src/target.cpp, and `resolveTarget` of src/compiler.cpp.
pub mod Model
pub mod Features
pub mod Groups
pub mod Pick
pub mod Resolve
pub mod LastMention
pub mod Named
pub mod Supported
pub mod Resolved
mod Examples
