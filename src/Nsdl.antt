-- ===== src/Nsdl.antt =====
-- source/m2mnsdlinterface.cpp, which stands between the client's interface and nsdl-c.
pub mod Find
pub mod Create
pub mod Order
pub mod Announced
pub mod Replies
pub mod Renewal
pub mod Tests
