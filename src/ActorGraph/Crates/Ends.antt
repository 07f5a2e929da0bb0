-- ===== src/ActorGraph/Crates/Ends.antt =====
-- The load of rsactor-graph/src/crate_tree.rs ends: results, and the files of modules.
pub mod Loads
pub mod Whole
use mathlib.Core.Option.{some-injective, none-ne-some}
use mathlib.Core.List.{Memᴰ}
use mathlib.Core.List.Memᴰ
use text.Mathlib.Text.{◌==◌}
use text.Mathlib.TextEquality.{eq_iff}
use rsactor.Base.{
  ℕ, zero, suc, ◌<◌, ◌≤◌, ◌≡◌, refl, subst, String, ◌<>◌, Bool, true, false, ◌||◌, Option, none,
  some, List, [], ◌∷◌, ◌++◌, length, arith, ◌>>=◌, unless, unless-length, unless-lt, if◌then◌else◌,
  Bool-cases,
}
use rsactor.ActorGraph.Render.Labels.{contains}
use rsactor.ActorGraph.Model.{Report}
use rsactor.ActorGraph.Workspace.{CrateSpec}
use rsactor.ActorGraph.Syntax.{
  Attribute, Item, Items, no_items, and_item, struct_item, enum_item, union_item, trait_item,
  type_item, fn_item, const_item, static_item, use_item, mod_item, mod_file_item, other_item,
}
use rsactor.ActorGraph.Crates.{Crate}
use rsactor.ActorGraph.Crates.Attributes.{CharClasses, is_cfg_test, item_attrs, path_attr}
use rsactor.ActorGraph.Crates.Files.{Files, Dirs, if_file, locate_module_file, parse_file}
use rsactor.ActorGraph.Crates.Load.{
  Loading, Loader, push_module, insert_child, set_items, complain, load_new, load_file, keep,
  load_declared, inline_dirs, close, load_items, load_item, add_module, loads, load_crate,
}

-- There is a result, and it has the property.
pub data Ends {A : Type 0} (P : A → Type 0) : Option A → Type 0 where
  ends : {a : A} → P a → Ends P (some a)

pub Ends-bind :
    {A B : Type 0} {P : A → Type 0} {Q : B → Type 0} {o : Option A} {next : A → Option B}
    → Ends P o
    → ((a : A) → P a → Ends Q (next a))
    → Ends Q (o >>= next)
Ends-bind (ends h) k = k _ h

pub Ends-weaken :
    {A : Type 0} {P Q : A → Type 0} {o : Option A} → ((a : A) → P a → Q a) → Ends P o → Ends Q o
Ends-weaken k (ends h) = ends (k _ h)

-- A module's file is a file.
pub locate-is_file :
    (f : Files) (attrs : List Attribute) (name : String) (dirs : Dirs) (file : String)
    → locate_module_file f attrs name dirs ≡ some file
    → f.is_file file ≡ true
unfolding locate_module_file if_file
locate-is_file f attrs name dirs file e = by_attr (path_attr attrs) e
  where
    by_if :
        (path : String) (b : Bool)
        → f.is_file path ≡ b
        → (if b then some path else none) ≡ some file
        → f.is_file file ≡ true
    by_if path true q h = subst (λ t. f.is_file t ≡ true) (some-injective _ _ h) q
    by_if path false q h = absurd (none-ne-some file h)

    by_flat :
        (b : Bool) (path nested : String)
        → f.is_file path ≡ b
        → (elim (if b then some path else none) [
          | some flat ↦ some flat
          | none ↦ if f.is_file nested then some nested else none
        ])
          ≡ some file
        → f.is_file file ≡ true
    by_flat true path nested q h = by_if path true q h
    by_flat false path nested q h = by_if nested (f.is_file nested) refl h

    by_attr :
        (o : Option String)
        → (elim o [
          | some path ↦ if_file f (f.join_path dirs.path_attr_base path)
          | none ↦ elim (if_file f (f.join_path dirs.children (name <> ".rs"))) [
            | some flat ↦ some flat
            | none ↦ if_file f (f.join_path (f.join_path dirs.children name) "mod.rs")
          ]
        ])
          ≡ some file
        → f.is_file file ≡ true
    by_attr (some path) h = by_if _ _ refl h
    by_attr none h = by_flat _ _ _ refl h
