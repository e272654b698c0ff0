-- ===== src/Service/Loading.antt =====
-- The plugins of Application (src/service/Application.cpp). Objects of type `M`; what KPluginLoader
-- and the plugin libraries answer are arguments.
use kactivitymanagerd.Prelude.{
  ◌⊎◌, subst, insert, refl, lookup, lookup-insert, ◌+◌, String, Bool, true, false, not, Option,
  none, some, List, [], ◌∷◌, ◌++◌, ◌≡◌, sym, ap, ◌∙◌, ◌==◌, string_eq, Hash, or_default, contains,
  length, length-append, Distinct, Distinct-snoc, select, if◌then◌else◌, Bool-cases, inl, inr,
}
use kactivitymanagerd.Service.Modules.{register}

-- KPluginMetaData
pub record PluginMetaData : Type 0 where
  pub plugin_id : String
  pub is_valid : Bool
  pub is_enabled_by_default : Bool

-- What a plugin's library comes to: no factory, a factory that creates nothing, or an object with the
-- name that it registers itself under in `init`, and whether `init` succeeds
pub data Library (M : Type 0) : Type 0 where
  no_factory no_object : Library M
  creates : (object : M) (name : String) (starts : Bool) → Library M

-- pluginIds and plugins of Application::Private, the modules of Module, and the objects that loadPlugin
-- has deleted
pub record Loaded (M : Type 0) : Type 0 where
  pub plugin_ids : List String
  pub plugins : List M
  pub modules : Hash String M
  pub deleted : List M

-- Application::Private::isPluginEnabled, with the entries "…Enabled" of the configuration
unfoldable pub is_plugin_enabled : (String → Option Bool) → PluginMetaData → Bool
is_plugin_enabled entry plugin =
    if plugin.plugin_id == "org.kde.ActivityManager.ResourceScoring"
    then true
    else or_default (entry plugin.plugin_id) plugin.is_enabled_by_default

module _ {M : Type 0} where
  -- loadPlugin, once the library is there; the object registers itself before `init` can fail
  unfoldable pub start_plugin : PluginMetaData → Library M → Loaded M → Loaded M × Bool
  start_plugin plugin no_factory s = (s, false)
  start_plugin plugin no_object s = (s, false)
  start_plugin plugin (creates object name true) s = (
    record {
      plugin_ids = s.plugin_ids ++ plugin.plugin_id ∷ [];
      plugins = s.plugins ++ object ∷ [];
      modules = register name object s.modules;
      deleted = s.deleted;
    },
    true,
  )
  start_plugin plugin (creates object name false) s = (
    record s { modules = register name object s.modules; deleted = s.deleted ++ object ∷ [] },
    false,
  )

  -- Application::Private::loadPlugin
  unfoldable pub load_plugin : (String → Library M) → PluginMetaData → Loaded M → Loaded M × Bool
  load_plugin library plugin s =
      if not plugin.is_valid
      then (s, false)
      else if contains s.plugin_ids plugin.plugin_id
      then (s, true)
      else start_plugin plugin (library plugin.plugin_id) s

  -- the loop of Application::loadPlugins over the offers
  unfoldable pub load_offers : (String → Library M) → List PluginMetaData → Loaded M → Loaded M
  load_offers library [] s = s
  load_offers library (o ∷ offers) s = load_offers library offers (load_plugin library o s).0

  -- Application::loadPlugins; findPlugins gives those that isPluginEnabled accepts
  unfoldable pub load_plugins :
      (String → Library M) → (String → Option Bool) → List PluginMetaData → Loaded M → Loaded M
  load_plugins library entry offers s =
      load_offers library (select (is_plugin_enabled entry) offers) s

  -- Application::loadPlugin, with the offers of findPluginsById
  unfoldable pub load_first :
      (String → Library M) → Option PluginMetaData → Loaded M → Loaded M × Bool
  load_first library none s = (s, false)
  load_first library (some offer) s = load_plugin library offer s

  -- the object is in the list
  abbrev pub IsAmong : M → List M → Type 0
  IsAmong o [] = ⊥
  IsAmong o (x ∷ xs) = (x ≡ o) ⊎ IsAmong o xs

  IsAmong-append : (o : M) (xs ys : List M) → IsAmong o xs → IsAmong o (xs ++ ys)
  IsAmong-append o [] ys h = absurd h
  IsAmong-append o (x ∷ xs) ys (inl e) = inl e
  IsAmong-append o (x ∷ xs) ys (inr h) = inr (IsAmong-append o xs ys h)

  IsAmong-last : (o : M) (xs : List M) → IsAmong o (xs ++ o ∷ [])
  IsAmong-last o [] = inl refl
  IsAmong-last o (x ∷ xs) = inr (IsAmong-last o xs)

  -- Every loaded plugin has its own id and one object, and each entry of the modules is one of those
  -- in `others`, a loaded plugin, or an object that has been deleted.
  pub record IsLoaded (others : Hash String M) (s : Loaded M) : Type 0 where
    pub distinct : Distinct s.plugin_ids
    pub paired : length s.plugin_ids ≡ length s.plugins
    pub traced :
        (name : String) (o : M)
        → lookup name s.modules ≡ some o
        → (lookup name others ≡ some o) ⊎ IsAmong o s.plugins ⊎ IsAmong o s.deleted

  lookup-register :
      (name k : String) (object o : M) (modules : Hash String M)
      → lookup k (register name object modules) ≡ some o
      → (object ≡ o) ⊎ (lookup k modules ≡ some o)
  unfolding register
  lookup-register name k object o modules h = elim (Bool-cases (name == "")) [
    | inl e ↦ inr (rw e at h)
    | inr e ↦
        let put : lookup k (insert name object modules) ≡ some o = rw e at h in
        inserted (sym (lookup-insert name k object modules) ∙ put)
  ]
    where
      inserted :
          (if name == k then some object else lookup k modules) ≡ some o
          → (object ≡ o) ⊎ (lookup k modules ≡ some o)
      inserted h = elim (Bool-cases (name == k)) [
        | inl same ↦ inl (cc (rw same at h))
        | inr other ↦ inr (rw other at h)
      ]

  start_plugin-IsLoaded :
      (others : Hash String M) (plugin : PluginMetaData) (l : Library M) (s : Loaded M)
      → contains s.plugin_ids plugin.plugin_id ≡ false
      → IsLoaded others s
      → IsLoaded others (start_plugin plugin l s).0
  unfolding start_plugin
  start_plugin-IsLoaded others plugin no_factory s e h = h
  start_plugin-IsLoaded others plugin no_object s e h = h
  start_plugin-IsLoaded others plugin (creates object name true) s e h = record {
    distinct = Distinct-snoc s.plugin_ids plugin.plugin_id e h.distinct;
    paired =
        length-append s.plugin_ids (plugin.plugin_id ∷ [])
        ∙ ap (λ n. n + 1) h.paired
        ∙ sym (length-append s.plugins (object ∷ []));
    traced = λ k o e. elim (lookup-register name k object o s.modules e) [
      | inl is ↦ inr (
          inl
            (subst (λ x. IsAmong x (s.plugins ++ object ∷ [])) is (IsAmong-last object s.plugins)))
      | inr old ↦ elim (h.traced k o old) [
        | inl other ↦ inl other
        | inr (inl now) ↦ inr (inl (IsAmong-append o s.plugins (object ∷ []) now))
        | inr (inr gone) ↦ inr (inr gone)
      ]
    ];
  }
  start_plugin-IsLoaded others plugin (creates object name false) s e h = record {
    distinct = h.distinct;
    paired = h.paired;
    traced = λ k o e. elim (lookup-register name k object o s.modules e) [
      | inl is ↦ inr (
          inr
            (subst (λ x. IsAmong x (s.deleted ++ object ∷ [])) is (IsAmong-last object s.deleted)))
      | inr old ↦ elim (h.traced k o old) [
        | inl other ↦ inl other
        | inr (inl now) ↦ inr (inl now)
        | inr (inr gone) ↦ inr (inr (IsAmong-append o s.deleted (object ∷ []) gone))
      ]
    ];
  }

  load_plugin-IsLoaded :
      (others : Hash String M) (library : String → Library M) (plugin : PluginMetaData)
      (s : Loaded M)
      → IsLoaded others s
      → IsLoaded others (load_plugin library plugin s).0
  unfolding load_plugin
  load_plugin-IsLoaded others library plugin s h = elim (Bool-cases (not plugin.is_valid)) [
    | inl bad ↦ rw bad h
    | inr good ↦ elim (Bool-cases (contains s.plugin_ids plugin.plugin_id)) [
      | inl again ↦ rw (good, again) h
      | inr new ↦
          rw (good, new) (start_plugin-IsLoaded others plugin (library plugin.plugin_id) s new h)
    ]
  ]

  load_offers-IsLoaded :
      (others : Hash String M) (library : String → Library M) (offers : List PluginMetaData)
      (s : Loaded M)
      → IsLoaded others s
      → IsLoaded others (load_offers library offers s)
  unfolding load_offers
  load_offers-IsLoaded others library [] s h = h
  load_offers-IsLoaded others library (o ∷ offers) s h =
      load_offers-IsLoaded others library offers (load_plugin library o s).0
        (load_plugin-IsLoaded others library o s h)

  -- LoadPlugins on any offers keeps the ids of the loaded plugins distinct and as many as the plugins,
  -- and each object that the modules hold is one of the `others`, a loaded plugin, or an object that
  -- loadPlugin has deleted because it did not start.
  pub load_plugins-IsLoaded :
      (library : String → Library M) (entry : String → Option Bool) (offers : List PluginMetaData)
      (others : Hash String M) (s : Loaded M)
      → IsLoaded others s
      → IsLoaded others (load_plugins library entry offers s)
  unfolding load_plugins
  load_plugins-IsLoaded library entry offers others s h =
      load_offers-IsLoaded others library (select (is_plugin_enabled entry) offers) s h
