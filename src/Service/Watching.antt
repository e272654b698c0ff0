-- ===== src/Service/Watching.antt =====
-- Config (src/service/Config.cpp), which watches the two configuration files.
use kactivitymanagerd.Prelude.{String, ◌==◌, string_eq, if◌then◌else◌}

-- the signals of Config
pub data ConfigSignal : Type 0 where
  plugin_config_changed main_config_changed : ConfigSignal

-- Config::Private::configFileChanged; the first argument is pluginConfigFile
unfoldable pub config_file_changed : String → String → ConfigSignal
config_file_changed plugin_config_file file =
    if file == plugin_config_file then plugin_config_changed else main_config_changed
