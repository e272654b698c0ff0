-- ===== src/Service.antt =====
-- The service around the components: the registry of modules and the gateway to their features
-- (src/service/Module.cpp, Plugin.cpp, Features.cpp), and the plugins that Application loads.
pub mod Keys
pub mod Modules
pub mod Routing
pub mod Loading
pub mod Watching
