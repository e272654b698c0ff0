-- ===== src/Resources.antt =====
-- Resources::Private of src/service/Resources.cpp and Resources_p.h: the queue of resource events,
-- the windows with their focused resources, and the thread that passes the queue on.
pub mod Events
pub mod Windows
pub mod Delivery
