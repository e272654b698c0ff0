-- ===== src/Lib.antt =====
-- The activity manager daemon (kactivitymanagerd). It keeps the user's activities, collects the
-- events of the resources that applications open, and lets plugins score and link resources.
--
-- Parts and files.
--   Activities/      Activities and Activities::Private (src/service/Activities.cpp): the map from
--                    ids to states, the sorted list, the current activity, the configuration.
--                    `Data` is the state, `Listing` the list and the reads, `Operations` the
--                    methods, each under the source's name in snake case, `Startup` the
--                    constructor. The others hold proofs: `Restart`, `Stored`, `Returning` and
--                    `Restoring` are about the configuration that is saved and read again;
--                    `Lifecycle` says what is promised of each call, in terms of the states and the
--                    current activity alone, and `Refinement` that the methods keep it;
--                    `Announced` compares the signals with what has happened.
--   KsmServer.antt   KSMServer::Private (src/service/ksmserver/KSMServer.cpp): session requests are
--                    queued and passed on to kwin; the replies are reported to Activities.
--   Event.antt       Event (src/service/Event.h).
--   Resources/       Resources::Private (src/service/Resources.cpp): the queue of events, the
--                    windows, and the thread that passes the queue on to the plugins.
--   Slc.antt         SlcPlugin (src/service/plugins/slc/SlcPlugin.cpp): the resource in focus.
--   Stats/           the sqlite plugin (src/service/plugins/sqlite). `Tables`: the rows of the
--                    database; `Links`: ResourceLinking; `Events`: StatsPlugin's addEvents and what
--                    it calls; `Deletion`: its Delete methods; `Private`: its feature isOTR;
--                    `Configuration`: its loadConfiguration;
--                    `Scores`: ResourceScoreCache; `Maintainer`: ResourceScoreMaintainer;
--                    `Patterns`: parseStarPattern of src/common/database/Database.h. `Batches`:
--                    the statements and transactions of addEvents. `Linking`, `Recording`,
--                    `History`, `Intervals` and `Tearing` hold proofs about these, and `Pipeline`
--                    about events on their way from Resources to the tables.
--   Storage/         the database. `Backups`: initDatabase of src/service/plugins/sqlite/Database.cpp,
--                    with its files in three places; `Migration`: initSchema of
--                    src/common/database/schema/ResourcesDatabaseSchema.cpp; `Connections`:
--                    Database::instance of src/common/database/Database.cpp; `Transactions`: its
--                    Locker, over an interface of SQLite with its laws; `Queries`: its queries,
--                    with their errors, and the preparation of queries in
--                    src/service/plugins/sqlite/Utils.h. `Copies`, `Recovery`, `Fallback`,
--                    `Upgrades` and `Runs` hold proofs about these.
--   Service/         `Modules`: Module, Plugin and Features (src/service); `Keys`: the keys of
--                    features; `Routing`: StatsPlugin behind Features; `Loading`: the plugins of
--                    Application (src/service/Application.cpp);
--                    `Watching`: Config (src/service/Config.cpp).
--   Plugins/         smaller plugins (src/service/plugins). `Desktops`: virtualdesktopswitch;
--                    `Scripts`: runapplication; `Shortcuts`: globalshortcuts, and `Following`:
--                    the signals it receives from Activities; `Spies`: eventspy and
--                    gtk-eventspy, with proofs in `Bookmarks`; `Templates`: activitytemplates,
--                    which calls Activities.
--
-- How the parts interact. Activities calls KSMServer to start and stop sessions, and is told of the
-- outcome by activitySessionStateChanged. In the model the calls are logged in `session_calls`, and
-- the outcome arrives as a call of its own. Resources tells SlcPlugin of each registered event at
-- once, and the sqlite plugin of the queued events once a second.
--
-- Choices. A method is a function from a state to a state; signals are logged, and what a queued
-- connection invokes later is logged in `posted`, like the second ActivityRemoved of a removal. The locks of the source only order the threads:
-- each method is one step. QHash is an association list, and its order of iteration, which Qt does
-- not specify, is the order of the list. Comparisons of Qt, the uuids, the answers of KAuthorized
-- and kwin, and the readings of the clock are arguments. Assertions of the source are no branches.
-- The loop of addActivity that looks for a new uuid is a recursion on the supply of uuids; it gives
-- none when the supply runs out. A table is a list of rows, and a prepared query a function on it
-- with the bound values written out; a comparison with NULL is not true. Floating-point numbers,
-- files, URLs, regular expressions and the operator LIKE are arguments. No other function is
-- bounded by fuel.
--
-- Whether an operation on a file succeeds, whether QSqlDatabase opens a database, what SQLite
-- reports, what QUrl makes of a text, the texts that KConfig stores for values, and what plugin
-- libraries, KService and window managers answer are arguments. A column that SQLite renames or
-- fills is a field of a row; the other columns are of any type.
-- initDatabase calls itself at most once: `init_with` is its body, with the inner call an argument.
-- std::sort is an insertion sort.
--
-- Not modelled: the D-Bus adaptors, the threads of Application, the watches of KDirWatch, the
-- opening of connections by Qt SQL, Utils::exec with its count of errors, the handler of database
-- errors once initDatabase has returned (it refers to a local variable that is gone), the timer of
-- the sqlite plugin for old events, and the texts and settings of the global shortcuts.
mod Prelude
pub mod KsmServer
pub mod Activities
pub mod Event
pub mod Resources
pub mod Slc
pub mod Service
pub mod Storage
pub mod Stats
pub mod Plugins
mod Tests
