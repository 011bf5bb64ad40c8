-- ===== src/Plugins/Registry.antt =====
-- plugin.tsx: the map of the plugins, which each change copies.
use mulex_fk.Prelude.{ℕ, Option, none, some, List}
use mulex_fk.Prelude.Keys.{number_key, list_key}
use mulex_fk.Convert.Engine.{Text}
use mulex_fk.Stores.Maps

-- MxPlugin, and what a module may export; `Page` stands for what it draws.
pub record MxPlugin (Page : Type 0) : Type 0 where
  pub id : Text
  pub name : Option Text
  pub icon : Option Page
  pub render : Option Page
  pub version : Option Text
  pub brief : Option Text
  pub description : Option Page
  pub author : Option Text
  pub modified : ℕ

pub record Module (Page : Type 0) : Type 0 where
  pub pname : Option Text
  pub icon : Option Page
  pub render : Option Page
  pub version : Option Text
  pub brief : Option Text
  pub description : Option Page
  pub author : Option Text

abbrev pub Plugins : Type 0 → Type 0
Plugins Page = List (Text × MxPlugin Page)

module _ {Page : Type 0} where
  unfoldable pub mx_register_plugin : MxPlugin Page → Plugins Page → Plugins Page
  mx_register_plugin plugin p = Maps.put p plugin.id plugin

  unfoldable pub mx_delete_plugin : Text → Plugins Page → Plugins Page
  mx_delete_plugin filename p = Maps.delete p filename

  abbrev pub or_default : Page → Option Page → Option Page
  or_default icon none = some icon
  or_default icon (some given) = some given

  abbrev pub plugin_of : Page → Text → ℕ → Module Page → MxPlugin Page
  plugin_of icon filename timestamp m = record {
    id = filename;
    name = m.pname;
    icon = or_default icon m.icon;
    render = m.render;
    version = m.version;
    brief = m.brief;
    description = m.description;
    author = m.author;
    modified = timestamp;
  }

  -- mxRegisterPluginFromFile, once its module is imported; `icon` is the default one.
  unfoldable pub mx_register_plugin_from_file :
      (icon : Page) → Text → ℕ → Module Page → Plugins Page → Plugins Page
  unfolding mx_register_plugin
  mx_register_plugin_from_file icon filename timestamp m p =
      mx_register_plugin (plugin_of icon filename timestamp m) p
