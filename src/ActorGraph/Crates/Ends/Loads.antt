-- ===== src/ActorGraph/Crates/Ends/Loads.antt =====
-- How many files the load of rsactor-graph/src/crate_tree.rs has left to read.
use mathlib.Core.List.{Memᴰ}
use text.Mathlib.TextEquality.{eq_iff}
use rsactor.Base.{
  ℕ, zero, suc, ◌<◌, ◌≤◌, ◌≡◌, refl, String, ◌<>◌, Bool, true, false, Option, none, some, List, [],
  ◌∷◌, ◌++◌, length, arith, ◌>>=◌, unless, unless-lt,
}
use rsactor.ActorGraph.Render.Labels.{contains}
use rsactor.ActorGraph.Syntax.{
  Attribute, Item, Items, no_items, and_item, struct_item, enum_item, union_item, trait_item,
  type_item, fn_item, const_item, static_item, use_item, mod_item, mod_file_item, other_item,
}
use rsactor.ActorGraph.Crates.Attributes.{CharClasses, is_cfg_test, item_attrs}
use rsactor.ActorGraph.Crates.Files.{Files, Dirs, locate_module_file}
use rsactor.ActorGraph.Crates.Load.{
  Loading, Loader, push_module, insert_child, set_items, complain, load_new, load_file, keep,
  load_declared, inline_dirs, close, load_items, load_item, add_module, loads,
}
use rsactor.ActorGraph.Crates.Ends.{Ends, ends, Ends-bind, Ends-weaken, locate-is_file}

module _ (k : CharClasses) (f : Files) (base : String) (files : List String) where
  abbrev pub unseen : Loading → ℕ
  unseen st = unless (λ x. contains x st.seen) files

  abbrev pub Sees : Loading → Loading → Type 0
  Sees st st' = unseen st' ≤ unseen st

  abbrev pub EndsBelow : ℕ → Loader → Type 0
  EndsBelow bound go =
      (parent : Option ℕ) (path : List String) (file : String) (dirs : Dirs) (items : Items)
      (st : Loading)
      → unseen st < bound
      → Ends (λ (r : ℕ × Loading). Sees st r.1) (go parent path file dirs items st)

  module _ (all : (file : String) → f.is_file file ≡ true → Memᴰ file files) (bound : ℕ)
      (go : Loader) (goes : EndsBelow bound go) where
    load_new-Ends :
        (id : ℕ) (path : List String) (name file : String) (st : Loading)
        → f.is_file file ≡ true
        → contains file st.seen ≡ false
        → unseen st < suc bound
        → Ends (Sees st) (load_new k f base go id path name file st)
    unfolding load_new insert_child contains
    load_new-Ends id path name file st y n b =
        let less : unless (λ x. contains x (file ∷ st.seen)) files < unseen st =
          unless-lt (λ x. contains x st.seen) (λ x. contains x (file ∷ st.seen)) files file
            (λ x h. ground (arith, h)) (all file y) n (rw ((eq_iff file file).1 refl) refl) in
        Ends-bind (goes (some id) (path ++ name ∷ []) file _ _ _ (omega arith))
          (λ r h. ends (omega arith))

    load_file-Ends :
        (id : ℕ) (path : List String) (file : String) (dirs : Dirs) (name : String) (line : ℕ)
        (attrs : List Attribute) (st : Loading)
        → unseen st < suc bound
        → Ends (Sees st) (load_file k f base go id path file dirs name line attrs st)
    unfolding load_file complain
    load_file-Ends id path file dirs name line attrs st b =
        by_file (locate_module_file f attrs name dirs) refl
      where
        by_seen :
            (child : String) (seen : Bool)
            → contains child st.seen ≡ seen
            → f.is_file child ≡ true
            → Ends (Sees st) (elim seen [
              | true ↦
                  some
                    (complain k f base file line ("module file " <> (child <> " loaded twice")) st)
              | false ↦ load_new k f base go id path name child st
            ])
        by_seen child true q y = ends (omega arith)
        by_seen child false q y = load_new-Ends id path name child st y q b

        by_file :
            (o : Option String)
            → locate_module_file f attrs name dirs ≡ o
            → Ends (Sees st) (elim o [
              | none ↦ some (
                  complain k f base file line
                    ("module file for `mod " <> (name <> ";` not found"))
                    st)
              | some child ↦ elim (contains child st.seen) [
                | true ↦
                    some (
                      complain k f base file line ("module file " <> (child <> " loaded twice")) st)
                | false ↦ load_new k f base go id path name child st
              ]
            ])
        by_file none q = ends (omega arith)
        by_file (some child) q =
            by_seen child (contains child st.seen) refl (locate-is_file f attrs name dirs child q)

    abbrev SeesOn : Loading → List Item × Loading → Type 0
    SeesOn st r = Sees st r.1

    keep-Ends :
        (item : Item) (kept : List Item) (st : Loading)
        → Ends (SeesOn st) (keep k f base go item kept st)
    unfolding keep
    keep-Ends item kept st = by_test (is_cfg_test k (item_attrs item))
      where
        by_test :
            (b : Bool)
            → Ends
                (SeesOn st)
                (elim b [ true ↦ some (kept, st) | false ↦ some (kept ++ item ∷ [], st) ])
        by_test true = ends (omega arith)
        by_test false = ends (omega arith)

    load_declared-Ends :
        (id : ℕ) (path : List String) (file : String) (dirs : Dirs) (name : String) (line : ℕ)
        (attrs : List Attribute) (kept : List Item) (st : Loading)
        → unseen st < suc bound
        → Ends (SeesOn st) (load_declared k f base go id path file dirs name line attrs kept st)
    unfolding load_declared
    load_declared-Ends id path file dirs name line attrs kept st b = by_test (is_cfg_test k attrs)
      where
        by_test :
            (test : Bool)
            → Ends (SeesOn st) (elim test [
              | true ↦ some (kept, st)
              | false ↦ load_file k f base go id path file dirs name line attrs st >>= λ st'.
                  some (kept, st')
            ])
        by_test true = ends (omega arith)
        by_test false =
            Ends-bind (load_file-Ends id path file dirs name line attrs st b) (λ st' h. ends h)

    -- the items of an inline module, once they end
    inline-Ends :
        (id : ℕ) (path : List String) (file name : String) (kept : List Item) (st : Loading)
        (test : Bool) (o : Option (List Item × Loading))
        → Ends (SeesOn st) o
        → Ends (SeesOn st) (elim test [
          | true ↦ some (kept, st)
          | false ↦ o >>= close k f base go id name (length st.modules) kept
        ])
    unfolding close insert_child set_items
    inline-Ends id path file name kept st true o h = ends (omega arith)
    inline-Ends id path file name kept st false o h = Ends-bind h (λ r g. ends g)

    mutual
      unfolding load_items load_item push_module

      load_items-Ends :
          (id : ℕ) (path : List String) (file : String) (dirs : Dirs) (items : Items)
          (kept : List Item) (st : Loading)
          → unseen st < suc bound
          → Ends (SeesOn st) (load_items k f base go id path file dirs items kept st)
      load_items-Ends id path file dirs no_items kept st b = ends (omega arith)
      load_items-Ends id path file dirs (and_item item rest) kept st b =
          Ends-bind (load_item-Ends id path file dirs item kept st b) (λ r h.
            Ends-weaken (λ t g. omega arith)
              (load_items-Ends id path file dirs rest r.0 r.1 (omega arith)))

      load_item-Ends :
          (id : ℕ) (path : List String) (file : String) (dirs : Dirs) (item : Item)
          (kept : List Item) (st : Loading)
          → unseen st < suc bound
          → Ends (SeesOn st) (load_item k f base go id path file dirs item kept st)
      load_item-Ends id path file dirs (struct_item n ps attrs) kept st b =
          keep-Ends (struct_item n ps attrs) kept st
      load_item-Ends id path file dirs (enum_item n ps attrs) kept st b =
          keep-Ends (enum_item n ps attrs) kept st
      load_item-Ends id path file dirs (union_item n ps attrs) kept st b =
          keep-Ends (union_item n ps attrs) kept st
      load_item-Ends id path file dirs (trait_item n ps attrs) kept st b =
          keep-Ends (trait_item n ps attrs) kept st
      load_item-Ends id path file dirs (type_item n ps attrs) kept st b =
          keep-Ends (type_item n ps attrs) kept st
      load_item-Ends id path file dirs (fn_item n attrs) kept st b =
          keep-Ends (fn_item n attrs) kept st
      load_item-Ends id path file dirs (const_item n attrs) kept st b =
          keep-Ends (const_item n attrs) kept st
      load_item-Ends id path file dirs (static_item n attrs) kept st b =
          keep-Ends (static_item n attrs) kept st
      load_item-Ends id path file dirs (use_item colon tree attrs) kept st b =
          keep-Ends (use_item colon tree attrs) kept st
      load_item-Ends id path file dirs (other_item attrs) kept st b =
          keep-Ends (other_item attrs) kept st
      load_item-Ends id path file dirs (mod_file_item name line attrs) kept st b =
          load_declared-Ends id path file dirs name line attrs kept st b
      load_item-Ends id path file dirs (mod_item name inner attrs) kept st b =
          inline-Ends id path file name kept st (is_cfg_test k attrs) _ (
            load_items-Ends (length st.modules) (path ++ name ∷ []) file
              (inline_dirs k f base go name dirs) inner []
              (push_module (some id) (path ++ name ∷ []) file st) b)

    add_module-Ends : EndsBelow (suc bound) (add_module k f base go)
    unfolding add_module push_module set_items
    add_module-Ends parent path file dirs items st b =
        Ends-bind
          (load_items-Ends (length st.modules) path file dirs items []
            (push_module parent path file st) b)
          (λ r h. ends h)

  pub loads-Ends :
      ((file : String) → f.is_file file ≡ true → Memᴰ file files)
      → (fuel : ℕ) → EndsBelow fuel (loads k f base fuel)
  unfolding loads
  loads-Ends all zero parent path file dirs items st b = absurd (omega arith)
  loads-Ends all (suc fuel) parent path file dirs items st b =
      add_module-Ends all fuel (loads k f base fuel) (loads-Ends all fuel) parent path file dirs
        items st b
