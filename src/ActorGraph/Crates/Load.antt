-- ===== src/ActorGraph/Crates/Load.antt =====
-- How rsactor-graph/src/crate_tree.rs loads a crate: one module after another, an inline module at
-- its place, the module of a file once.
use rsactor.Base.{
  ℕ, zero, suc, String, ◌<>◌, Bool, true, false, Option, none, some, List, [], ◌∷◌, ◌++◌, length,
  set, get_elem?, ◌>>=◌,
}
use rsactor.ActorGraph.Render.Labels.{contains}
use rsactor.ActorGraph.Workspace.{CrateSpec}
use rsactor.ActorGraph.Syntax.{
  Attribute, Item, Items, no_items, and_item, struct_item, enum_item, union_item, trait_item,
  type_item, fn_item, const_item, static_item, use_item, mod_item, mod_file_item, other_item,
}
use rsactor.ActorGraph.Model.{declaration, Report}
use rsactor.ActorGraph.Crates.{Module, Crate}
use rsactor.ActorGraph.Crates.Attributes.{CharClasses, is_cfg_test, item_attrs}
use rsactor.ActorGraph.Crates.Files.{
  Files, Dirs, push, dir_of, location_of, parse_file, locate_module_file, module_dir_of,
}

-- what the load fills: the modules, the report and the files that it has seen
pub record Loading : Type 0 where
  pub modules : List Module
  pub report : Report
  pub seen : List String

-- `None` where the fuel ran out
abbrev pub Loader : Type 0
Loader = Option ℕ → List String → String → Dirs → Items → Loading → Option (ℕ × Loading)

unfoldable pub push_module : Option ℕ → List String → String → Loading → Loading
push_module parent path file st = record {
  modules =
      st.modules
      ++ record { path = path; file = file; parent = parent; children = []; items = [] } ∷ [];
  report = st.report;
  seen = st.seen;
}

unfoldable pub update : ℕ → (Module → Module) → List Module → List Module
update id change modules = elim (get_elem? modules id) [
  | none ↦ modules
  | some md ↦ set modules id (change md)
]

-- `self.modules[id].children.insert(name, child)`
unfoldable pub insert_child : ℕ → String → ℕ → Loading → Loading
unfolding update
insert_child id name child st = record {
  modules =
      update id
        (λ md. record {
          path = md.path;
          file = md.file;
          parent = md.parent;
          children = (name, child) ∷ md.children;
          items = md.items;
        })
        st.modules;
  report = st.report;
  seen = st.seen;
}

-- `self.modules[id].items = kept`
unfoldable pub set_items : ℕ → List Item → Loading → Loading
unfolding update
set_items id kept st = record {
  modules =
      update id
        (λ md. record {
          path = md.path;
          file = md.file;
          parent = md.parent;
          children = md.children;
          items = kept;
        })
        st.modules;
  report = st.report;
  seen = st.seen;
}

module _ (k : CharClasses) (f : Files) (base : String) where
  unfoldable pub complain : String → ℕ → String → Loading → Loading
  unfolding push location_of
  complain file line detail st = record {
    modules = st.modules;
    report = push declaration (some (location_of f file line base)) detail st.report;
    seen = st.seen;
  }

  -- a `mod name;`, of which `load` loads the file
  module _ (load : Loader) where
    unfoldable pub load_new : ℕ → List String → String → String → Loading → Option Loading
    unfolding parse_file module_dir_of dir_of insert_child
    load_new id path name file st = do
      let p = parse_file f file base st.report
      (child, st') ←
          load (some id) (path ++ name ∷ []) file
            (record { children = module_dir_of f file; path_attr_base = dir_of f file }) p.0
            (record { modules = st.modules; report = p.1; seen = file ∷ st.seen })
      some (insert_child id name child st')

    unfoldable pub load_file :
        ℕ → List String → String → Dirs → String → ℕ → List Attribute → Loading → Option Loading
    unfolding locate_module_file load_new complain contains
    load_file id path file dirs name line attrs st = elim (locate_module_file f attrs name dirs) [
      | none ↦ some (complain file line ("module file for `mod " <> (name <> ";` not found")) st)
      | some child_file ↦ elim (contains child_file st.seen) [
        | true ↦ some (complain file line ("module file " <> (child_file <> " loaded twice")) st)
        | false ↦ load_new id path name child_file st
      ]
    ]

    -- an item that stays, when it is not test-only
    unfoldable pub keep : Item → List Item → Loading → Option (List Item × Loading)
    unfolding is_cfg_test item_attrs
    keep item kept st = elim (is_cfg_test k (item_attrs item)) [
      | true ↦ some (kept, st)
      | false ↦ some (kept ++ item ∷ [], st)
    ]

    unfoldable pub load_declared :
        ℕ
        → List String
        → String
        → Dirs
        → String
        → ℕ
        → List Attribute
        → List Item
        → Loading
        → Option (List Item × Loading)
    unfolding load_file is_cfg_test
    load_declared id path file dirs name line attrs kept st = elim (is_cfg_test k attrs) [
      | true ↦ some (kept, st)
      | false ↦ do st' ← load_file id path file dirs name line attrs st; some (kept, st')
    ]

    -- the directories of an inline module
    abbrev pub inline_dirs : String → Dirs → Dirs
    inline_dirs name dirs = record {
      children = f.join_path dirs.children name;
      path_attr_base = f.join_path dirs.path_attr_base name;
    }

    -- an inline module is done: its items, and its name in the module above
    unfoldable pub close :
        ℕ → String → ℕ → List Item → List Item × Loading → Option (List Item × Loading)
    unfolding insert_child set_items
    close id name child kept r = some (kept, insert_child id name child (set_items child r.0 r.1))

    -- the loop of `add_module` over the items
    unfoldable mutual
      unfolding keep load_declared push_module close is_cfg_test

      pub load_items :
          ℕ
          → List String
          → String
          → Dirs
          → Items
          → List Item
          → Loading
          → Option (List Item × Loading)
      load_items id path file dirs no_items kept st = some (kept, st)
      load_items id path file dirs (and_item item rest) kept st =
          load_item id path file dirs item kept st >>= λ r.
          load_items id path file dirs rest r.0 r.1

      pub load_item :
          ℕ
          → List String
          → String
          → Dirs
          → Item
          → List Item
          → Loading
          → Option (List Item × Loading)
      load_item id path file dirs (struct_item n ps attrs) kept st =
          keep (struct_item n ps attrs) kept st
      load_item id path file dirs (enum_item n ps attrs) kept st =
          keep (enum_item n ps attrs) kept st
      load_item id path file dirs (union_item n ps attrs) kept st =
          keep (union_item n ps attrs) kept st
      load_item id path file dirs (trait_item n ps attrs) kept st =
          keep (trait_item n ps attrs) kept st
      load_item id path file dirs (type_item n ps attrs) kept st =
          keep (type_item n ps attrs) kept st
      load_item id path file dirs (fn_item n attrs) kept st = keep (fn_item n attrs) kept st
      load_item id path file dirs (const_item n attrs) kept st = keep (const_item n attrs) kept st
      load_item id path file dirs (static_item n attrs) kept st = keep (static_item n attrs) kept st
      load_item id path file dirs (use_item colon tree attrs) kept st =
          keep (use_item colon tree attrs) kept st
      load_item id path file dirs (other_item attrs) kept st = keep (other_item attrs) kept st
      load_item id path file dirs (mod_file_item name line attrs) kept st =
          load_declared id path file dirs name line attrs kept st
      load_item id path file dirs (mod_item name inner attrs) kept st = elim (is_cfg_test k attrs) [
        | true ↦ some (kept, st)
        | false ↦
            load_items (length st.modules) (path ++ name ∷ []) file (inline_dirs name dirs) inner []
              (push_module (some id) (path ++ name ∷ []) file st)
            >>= close id name (length st.modules) kept
      ]

    -- `add_module`
    unfoldable pub add_module : Loader
    unfolding load_items push_module set_items
    add_module parent path file dirs items st = do
      r ← load_items (length st.modules) path file dirs items [] (push_module parent path file st)
      some (length st.modules, set_items (length st.modules) r.0 r.1)

  -- each step down reads another file
  unfoldable pub loads : ℕ → Loader
  unfolding add_module
  loads zero parent path file dirs items st = none
  loads (suc fuel) parent path file dirs items st =
      add_module (loads fuel) parent path file dirs items st

  -- `Crate::load`
  unfoldable pub load_crate : ℕ → CrateSpec → Bool → Report → Option (Crate × Report)
  unfolding loads parse_file dir_of
  load_crate fuel spec is_target r = do
    let p = parse_file f spec.root base r
    (id, st) ←
        loads fuel none [] spec.root
          (record { children = dir_of f spec.root; path_attr_base = dir_of f spec.root }) p.0
          (record { modules = []; report = p.1; seen = spec.root ∷ [] })
    some (record { spec = spec; is_target = is_target; modules = st.modules }, st.report)
