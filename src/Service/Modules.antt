-- ===== src/Service/Modules.antt =====
-- Module and Features (src/service/Module.cpp, Plugin.cpp and Features.cpp). The objects share a state
-- of type `S`; the values of features have the type `V`.
use kactivitymanagerd.Prelude.{
  String, Bool, false, Option, none, some, List, [], ◌==◌, string_eq, Hash, lookup, insert, keys,
  if◌then◌else◌,
}
use kactivitymanagerd.Service.Keys.{split}

-- the virtual methods of Module
pub record Module (S V : Type 0) : Type 0 where
  pub is_feature_operational : S → List String → Bool
  pub list_features : S → List String → List String
  pub feature_value : S → List String → Option V
  pub set_feature_value : S → List String → V → S

-- Module's own versions of the methods; `none` is the invalid QDBusVariant()
abbrev pub plain_module : {S V : Type 0} → Module S V
plain_module = record {
  is_feature_operational = λ s feature. false;
  list_features = λ s feature. [];
  feature_value = λ s property. none;
  set_feature_value = λ s property value. s;
}

-- Module::Private::s_modules, over any type of objects
module _ {M : Type 0} where
  -- the constructor of Module, and Plugin::init: an object with a name is registered
  unfoldable pub register : String → M → Hash String M → Hash String M
  register name object modules = if name == "" then modules else insert name object modules

  -- Module::get
  abbrev pub get : String → Hash String M → Option M
  get name modules = lookup name modules

-- Plugin::config: the group of the configuration; none without a name
abbrev pub config_group : (String → String → String) → String → Option String
config_group append name = if name == "" then none else some (append "Plugin-" name)

module _ {S V : Type 0} where
  -- the end of passToModule: `f` on the module that was found
  unfoldable pub pass_found {ℓ} :
      {R : Type ℓ} → Option (Module S V) → List String → R → (Module S V → List String → R) → R
  pass_found none params default_result f = default_result
  pass_found (some m) params default_result f = f m params

  -- passToModule
  unfoldable pub pass_to_module {ℓ} :
      {R : Type ℓ} → Hash String (Module S V) → String → R → (Module S V → List String → R) → R
  pass_to_module modules key default_result f =
      if key == ""
      then default_result
      else pass_found (get (split key).0 modules) (split key).1 default_result f

  -- Features::IsFeatureOperational
  unfoldable pub is_feature_operational : Hash String (Module S V) → S → String → Bool
  is_feature_operational modules s key =
      pass_to_module modules key false (λ m params. m.is_feature_operational s params)

  -- Features::ListFeatures
  unfoldable pub list_features : Hash String (Module S V) → S → String → List String
  list_features modules s key =
      if key == ""
      then keys modules
      else pass_to_module modules key [] (λ m params. m.list_features s params)

  -- Features::GetValue
  unfoldable pub get_value : Hash String (Module S V) → S → String → Option V
  get_value modules s key = pass_to_module modules key none (λ m params. m.feature_value s params)

  -- Features::SetValue
  unfoldable pub set_value : Hash String (Module S V) → String → V → S → S
  set_value modules key value s =
      pass_to_module modules key s (λ m params. m.set_feature_value s params value)
