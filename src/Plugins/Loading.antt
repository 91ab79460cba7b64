-- ===== src/Plugins/Loading.antt =====
-- `PluginRegistry` of src/spidercheck/plugins/__init__.py imports once.
use spidercheck.Prelude.{◌≡◌, refl, true, Text, inl, inr, Bool-cases}
use spidercheck.Plugins.{Plugin, Registry, initialize, get_all_plugins}

-- A second call of `get_all_plugins` gives the plugins that the first gave and leaves the registry
-- alone, whatever an import would give by then, and from the first call on the registry is
-- initialized.
pub get_all_plugins-once :
    (import_process import_later : Text → Plugin) (r : Registry)
    → (get_all_plugins import_later (get_all_plugins import_process r).1
        ≡ get_all_plugins import_process r)
      × ((get_all_plugins import_process r).1.initialized ≡ true)
unfolding get_all_plugins initialize
get_all_plugins-once import_process import_later r = elim (Bool-cases r.initialized) [
  | inl ready ↦ rw ready (refl, refl)
  | inr fresh ↦ rw fresh (refl, refl)
]
