-- ===== src/Tests/Resolve.antt =====
-- A crate `app` with a module `router` in a file of its own, loaded, indexed and asked for names.
use mathlib.Core.List.{Memᴰ}
use mathlib.Core.Option.{some-injective, none-ne-some}
use text.Mathlib.Text.{◌==◌}
use text.Mathlib.TextEquality.{eq_iff}
use rsactor.Base.{
  ℕ, zero, suc, ◌≡◌, refl, sym, ap, subst, ◌↔◌, ◌∙◌, inl, inr, String, ◌<>◌, ◌&&◌, leb, Bool, true,
  false, Option, none, some, List, [], ◌∷◌, length, get_elem?, get_last?, if◌then◌else◌, Bool-cases,
}
use rsactor.Base as Base
use rsactor.ActorGraph.Model.{Report}
use rsactor.ActorGraph.Workspace.{CrateSpec}
use rsactor.ActorGraph.Syntax.{
  name_value, Items, no_items, and_item, struct_item, use_item, mod_file_item, use_path, use_glob,
}
use rsactor.ActorGraph.Crates.{Module, Crate}
use rsactor.ActorGraph.Crates.Attributes.{CharClasses}
use rsactor.ActorGraph.Crates.Files.{Files, parsed, unreadable}
use rsactor.ActorGraph.Crates.Load.{load_crate}
use rsactor.ActorGraph.Crates.Scan.{scan_index}
use rsactor.ActorGraph.Crates.Tree.Whole.{IsWhole}
use rsactor.ActorGraph.Crates.Ends.Whole.{load_crate_links, scan_index_builds}
use rsactor.ActorGraph.Resolve.Reach.{LeadsOutside}
use rsactor.ActorGraph.Resolve.Reach.Search.{outside_correct}
use rsactor.ActorGraph.Resolve.{
  Decl, struct_kind, module_of, Index, Resolved, declaration, Import, named, value_of,
}
use rsactor.ActorGraph.Resolve.Lookup.{found, missing, resolve_exact}
use rsactor.ActorGraph.Resolve.Paths.{look_from}
use rsactor.ActorGraph.Resolve.Segments.{outside, resolve_segments, resolve_segments_scoped}
use rsactor.ActorGraph.Resolve.Build.{build}
use rsactor.ActorGraph.Resolve.Build.Named.{ids_of, ids_named}
use rsactor.ActorGraph.Resolve.Build.WellFormed.{IsTree, build-IsWellFormed, build_lists}
use rsactor.ActorGraph.Resolve.Settled.{Settles, IsWellFormed}
use rsactor.ActorGraph.Resolve.Settled.Paths.{IsAnswer, resolve_answers}
use rsactor.ActorGraph.Resolve.Inferred.{inferred_answer}

abbrev app : CrateSpec
app = record { target = "lib:app"; name = "app"; root = "src/lib.rs" }

abbrev top : Module
top = record {
  path = [];
  file = "src/lib.rs";
  parent = none;
  children = ("router", 1) ∷ [];
  items = use_item false (use_path "rsactor" use_glob) [] ∷ [];
}

abbrev below_top : Module
below_top = record {
  path = "router" ∷ [];
  file = "src/router.rs";
  parent = some 0;
  children = [];
  items = struct_item "Router" [] [] ∷ [];
}

abbrev tree : Crate
tree = record { spec = app; is_target = true; modules = top ∷ below_top ∷ [] }

tree-IsTree : IsTree tree
unfolding value_of
tree-IsTree = record { root = (top, refl); below = below; above = above }
  where
    named_child :
        (name : String) (k : ℕ)
        → value_of name (("router", 1) ∷ []) ≡ some k
        → (x : Module) × (get_elem? (top ∷ below_top ∷ []) k ≡ some x)
    named_child name k f = elim (Bool-cases ("router" == name)) [
      | inl y ↦
          let g : some 1 ≡ some k = rw (y, value_of) at f in
          subst (λ j. (x : Module) × (get_elem? (top ∷ below_top ∷ []) j ≡ some x))
            (some-injective _ _ g) (below_top, refl)
      | inr n ↦
          let g : ◌≡◌ {A = Option ℕ} none (some k) = rw (n, value_of) at f in
          absurd (none-ne-some k g)
    ]

    below :
        (m : ℕ) (md : Module) (name : String) (k : ℕ)
        → get_elem? (top ∷ below_top ∷ []) m ≡ some md
        → value_of name md.children ≡ some k
        → (x : Module) × (get_elem? (top ∷ below_top ∷ []) k ≡ some x)
    below zero md name k e f =
        named_child name k
          (ap (λ (x : Module). value_of name x.children) (some-injective _ _ e) ∙ f)
    below (suc zero) md name k e f =
        absurd (
          none-ne-some k (ap (λ (x : Module). value_of name x.children) (some-injective _ _ e) ∙ f))
    below (suc (suc m)) md name k e f = absurd (none-ne-some md e)

    above :
        (m : ℕ) (md : Module) (p : ℕ)
        → get_elem? (top ∷ below_top ∷ []) m ≡ some md
        → md.parent ≡ some p
        → (x : Module) × (get_elem? (top ∷ below_top ∷ []) p ≡ some x)
    above zero md p e f =
        absurd (none-ne-some p (ap (λ (x : Module). x.parent) (some-injective _ _ e) ∙ f))
    above (suc zero) md p e f =
        subst (λ j. (x : Module) × (get_elem? (top ∷ below_top ∷ []) j ≡ some x))
          (some-injective _ _ (ap (λ (x : Module). x.parent) (some-injective _ _ e) ∙ f))
          (top, refl)
    above (suc (suc m)) md p e f = absurd (none-ne-some md e)

trees : (c : ℕ) (krate : Crate) → get_elem? (tree ∷ []) c ≡ some krate → IsTree krate
trees zero krate e = subst IsTree (some-injective _ _ e) tree-IsTree
trees (suc c) krate e = absurd (none-ne-some krate e)

at_top : module_of (build (tree ∷ [])) 0 0 ≡ some top
unfolding module_of build
at_top = refl

asks_router :
    resolve_segments (build (tree ∷ [])) 0 0 ("Router" ∷ []) false
    ≡ found (record { res = declaration 0; is_inferred = true })
unfolding resolve_segments build
asks_router = refl

-- `tokio::spawn` as `go`, in the block
abbrev block : List (List Import)
block = (named "go" ("tokio" ∷ "spawn" ∷ []) false ∷ []) ∷ []

resolve_answers_example :
    Settles
      (IsAnswer (build (tree ∷ [])))
      (resolve_segments_scoped (build (tree ∷ [])) 0 0 ("router" ∷ "Router" ∷ []) false block)
resolve_answers_example =
    resolve_answers (build (tree ∷ [])) (build-IsWellFormed (tree ∷ []) trees) 0 0
      ("router" ∷ "Router" ∷ []) false block (top, at_top)

build_lists_example :
    ids_of "Router" (build (tree ∷ [])).by_last_segment
    ≡ ids_named "Router" 0 (build (tree ∷ [])).decls
build_lists_example = build_lists (tree ∷ []) "Router"

-- the root module knows `Router` only as the one type of this name
abbrev only_router : Resolved
only_router = record { res = declaration 0; is_inferred = true }

inferred_answer_example :
    (resolve_exact
        (build (tree ∷ []))
        (look_from (build (tree ∷ [])) ("Router" ∷ []))
        0
        0
        ("Router" ∷ [])
        false
      ≡ missing)
    × (name : String) × (id : ℕ) × (get_last? ("Router" ∷ []) ≡ some name)
    × (only_router.res ≡ declaration id)
    × (ids_named name 0 (build (tree ∷ [])).decls ≡ id ∷ [])
    × (outside (build (tree ∷ [])) (look_from (build (tree ∷ [])) ("Router" ∷ [])) 0 0
        ≡ found false)
inferred_answer_example =
    inferred_answer (tree ∷ []) 0 0 ("Router" ∷ []) false only_router asks_router refl

-- `src/router.rs`, with a path to itself
abbrev router_items : Items
router_items =
    and_item (struct_item "Router" [] []) (
      and_item (mod_file_item "again" 2 (name_value "path" (some "../src/router.rs") ∷ []))
        no_items)

abbrev around : String
around = "src/../src/router.rs"

-- The files of `app`, on a system that takes no path of more than twenty characters.
abbrev disk : Files
disk = record {
  join_path = λ a b. a <> ("/" <> b);
  parent = λ path. if path == around then some "src/../src" else some "src";
  file_stem = λ path. if path == "src/lib.rs" then some "lib" else some "router";
  strip_base = λ path base. none;
  components = λ path. path ∷ [];
  is_file = λ path. if path == "src/router.rs" then true else path == around;
  parse = λ path.
      if path == "src/lib.rs"
      then parsed (and_item (mod_file_item "router" 3 []) no_items)
      else if path == "src/router.rs"
      then parsed router_items
      else if path == around
      then parsed router_items
      else unreadable "no such file";
}

abbrev known_paths : List String
known_paths = "src/router.rs" ∷ around ∷ []

abbrev ascii : CharClasses
ascii = record {
  is_alphanumeric = λ c. leb b'a' c && leb c b'z';
  is_whitespace = λ c. Base.◌==◌ c b' ';
}

on_disk : (file : String) → disk.is_file file ≡ true → Memᴰ file known_paths
on_disk file h = elim (Bool-cases (file == "src/router.rs")) [
  | inl y ↦ Memᴰ.head ((eq_iff file "src/router.rs").0 y)
  | inr n ↦
      let h' : (if false then true else file == around) ≡ true = rw n at h in
      Memᴰ.tail (Memᴰ.head ((eq_iff file around).0 h'))
]

-- the module is loaded once by each of the two paths
modules_loaded : Option (Crate × Report) → ℕ
modules_loaded none = 0
modules_loaded (some p) = length p.0.modules

loads_both : modules_loaded (load_crate ascii disk "" 3 app true (record { entries = [] })) ≡ 3
unfolding modules_loaded load_crate
loads_both = refl

load_crate_links_example :
    (p : Crate × Report) × (load_crate ascii disk "" 3 app true (record { entries = [] }) ≡ some p)
    × IsWhole p.0
load_crate_links_example =
    load_crate_links ascii disk known_paths on_disk "" app true (record { entries = [] })

scan_index_builds_example :
    (p : Index × Report) × (scan_index ascii disk 3
        (record { name = "app"; targets = app ∷ []; declarations = []; base_dir = "" })
      ≡ some p)
    × IsWellFormed p.0
scan_index_builds_example =
    scan_index_builds ascii disk known_paths on_disk
      (record { name = "app"; targets = app ∷ []; declarations = []; base_dir = "" })

-- the root module has only a glob of rsactor, whose names are known
outside_correct_example :
    (b : Bool) × (outside (build (tree ∷ [])) (look_from (build (tree ∷ [])) ("Router" ∷ [])) 0 0
      ≡ found b)
    × ((b ≡ true)
        ↔ LeadsOutside (build (tree ∷ [])) (look_from (build (tree ∷ [])) ("Router" ∷ [])) 0 0)
outside_correct_example =
    outside_correct (build (tree ∷ [])) (build-IsWellFormed (tree ∷ []) trees) ("Router" ∷ []) 0 0
      (top, at_top)

abbrev router_decl : Decl
router_decl = record {
  krate = 0;
  module_id = 1;
  item = 0;
  name = "Router";
  kind = struct_kind;
  generics = [];
}
