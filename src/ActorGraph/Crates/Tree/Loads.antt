-- ===== src/ActorGraph/Crates/Tree/Loads.antt =====
-- The parents of the modules that the load of rsactor-graph/src/crate_tree.rs adds.
use mathlib.Core.Option.{some-injective}
use rsactor.Base.{
  ℕ, zero, suc, ◌<◌, ◌≡◌, subst, String, ◌<>◌, Bool, true, false, Option, none, some, List, [], ◌∷◌,
  ◌++◌, length, ◌>>=◌,
}
use rsactor.ActorGraph.Render.Labels.{contains}
use rsactor.ActorGraph.Syntax.{
  Attribute, Item, Items, no_items, and_item, struct_item, enum_item, union_item, trait_item,
  type_item, fn_item, const_item, static_item, use_item, mod_item, mod_file_item, other_item,
}
use rsactor.ActorGraph.Crates.Attributes.{CharClasses, is_cfg_test, item_attrs}
use rsactor.ActorGraph.Crates.Files.{Files, Dirs, locate_module_file}
use rsactor.ActorGraph.Crates.Load.{
  Loading, Loader, push_module, insert_child, set_items, complain, load_new, load_file, keep,
  load_declared, inline_dirs, close, load_items, load_item, add_module, loads,
}
use rsactor.ActorGraph.Crates.Tree.{
  IfSome, is_none, is_some, StandsAt, IsGrown, StandsAt-grown, IsGrown-refl, IsGrown-trans,
}
use rsactor.ActorGraph.Crates.Tree.Steps.{
  StandsAt-below, push_module-StandsAt, push_module-IsGrown, set_items-IsGrown,
  insert_child-IsGrown,
}

pub IfSome-bind :
    {A B : Type 0} {P : A → Type 0} {Q : B → Type 0} {o : Option A} {next : A → Option B}
    → IfSome P o
    → ((a : A) → P a → IfSome Q (next a))
    → IfSome Q (o >>= next)
IfSome-bind is_none k = is_none
IfSome-bind (is_some h) k = k _ h

-- A module's load grows the tree, and answers where it put the module.
abbrev pub IsLoader : Loader → Type 0
IsLoader go =
    (parent : Option ℕ) (path : List String) (file : String) (dirs : Dirs) (items : Items)
    (st : Loading)
    → ((p : ℕ) → parent ≡ some p → p < length st.modules)
    → IfSome
        (λ (r : ℕ × Loading). IsGrown st.modules r.1.modules × StandsAt r.1.modules r.0 parent path)
        (go parent path file dirs items st)

abbrev Grows : Loading → Loading → Type 0
Grows st st' = IsGrown st.modules st'.modules

module _ (k : CharClasses) (f : Files) (base : String) (go : Loader) (loader : IsLoader go) where
  -- the child is linked to the module that it is in
  link :
      (id child : ℕ) (parent : Option ℕ) (path : List String) (name : String) (st st' : Loading)
      → StandsAt st.modules id parent path
      → Grows st st'
      → StandsAt st'.modules child (some id) (path ++ name ∷ [])
      → Grows st (insert_child id name child st')
  link id child parent path name st st' at g c = IsGrown-trans _ _ _ g (
      insert_child-IsGrown id name child path parent st' (StandsAt-grown _ _ id parent path g at) c)

  load_new-Grows :
      (id : ℕ) (parent : Option ℕ) (path : List String) (name file : String) (st : Loading)
      → StandsAt st.modules id parent path
      → IfSome (Grows st) (load_new k f base go id path name file st)
  unfolding load_new
  load_new-Grows id parent path name file st at =
      IfSome-bind
        (loader (some id) (path ++ name ∷ []) file _ _ _ (λ p e.
          subst (λ j. j < length st.modules) (some-injective _ _ e)
            (StandsAt-below st.modules id parent path at)))
        (λ r h. is_some (link id r.0 parent path name st r.1 at h.0 h.1))

  load_file-Grows :
      (id : ℕ) (parent : Option ℕ) (path : List String) (file : String) (dirs : Dirs)
      (name : String) (line : ℕ) (attrs : List Attribute) (st : Loading)
      → StandsAt st.modules id parent path
      → IfSome (Grows st) (load_file k f base go id path file dirs name line attrs st)
  unfolding load_file complain
  load_file-Grows id parent path file dirs name line attrs st at =
      by_file (locate_module_file f attrs name dirs)
    where
      by_seen :
          (child : String) (b : Bool)
          → IfSome (Grows st) (elim b [
            | true ↦
                some (complain k f base file line ("module file " <> (child <> " loaded twice")) st)
            | false ↦ load_new k f base go id path name child st
          ])
      by_seen child true = is_some (IsGrown-refl st.modules)
      by_seen child false = load_new-Grows id parent path name child st at

      by_file :
          (o : Option String)
          → IfSome (Grows st) (elim o [
            | none ↦ some (
                complain k f base file line
                  ("module file for `mod " <> (name <> ";` not found"))
                  st)
            | some child ↦ elim (contains child st.seen) [
              | true ↦
                  some
                    (complain k f base file line ("module file " <> (child <> " loaded twice")) st)
              | false ↦ load_new k f base go id path name child st
            ]
          ])
      by_file none = is_some (IsGrown-refl st.modules)
      by_file (some child) = by_seen child (contains child st.seen)

  abbrev Kept : Loading → List Item × Loading → Type 0
  Kept st r = Grows st r.1

  keep-Kept :
      (item : Item) (kept : List Item) (st : Loading)
      → IfSome (Kept st) (keep k f base go item kept st)
  unfolding keep
  keep-Kept item kept st = by_test (is_cfg_test k (item_attrs item))
    where
      by_test :
          (b : Bool)
          → IfSome
              (Kept st)
              (elim b [ true ↦ some (kept, st) | false ↦ some (kept ++ item ∷ [], st) ])
      by_test true = is_some (IsGrown-refl st.modules)
      by_test false = is_some (IsGrown-refl st.modules)

  load_declared-Kept :
      (id : ℕ) (parent : Option ℕ) (path : List String) (file : String) (dirs : Dirs)
      (name : String) (line : ℕ) (attrs : List Attribute) (kept : List Item) (st : Loading)
      → StandsAt st.modules id parent path
      → IfSome (Kept st) (load_declared k f base go id path file dirs name line attrs kept st)
  unfolding load_declared
  load_declared-Kept id parent path file dirs name line attrs kept st at =
      by_test (is_cfg_test k attrs)
    where
      by_test :
          (b : Bool)
          → IfSome (Kept st) (elim b [
            | true ↦ some (kept, st)
            | false ↦ load_file k f base go id path file dirs name line attrs st >>= λ st'.
                some (kept, st')
          ])
      by_test true = is_some (IsGrown-refl st.modules)
      by_test false =
          IfSome-bind (load_file-Grows id parent path file dirs name line attrs st at)
            (λ st' g. is_some g)

  close-Kept :
      (id child : ℕ) (parent : Option ℕ) (path : List String) (name : String) (kept : List Item)
      (st : Loading) (r : List Item × Loading)
      → StandsAt st.modules id parent path
      → Grows st r.1
      → StandsAt r.1.modules child (some id) (path ++ name ∷ [])
      → IfSome (Kept st) (close k f base go id name child kept r)
  unfolding close
  close-Kept id child parent path name kept st r at g c =
      let s = set_items-IsGrown child r.0 r.1 in
      is_some (
        link id child parent path name st (set_items child r.0 r.1) at (IsGrown-trans _ _ _ g s)
          (StandsAt-grown _ _ child (some id) (path ++ name ∷ []) s c))

  Kept-grown :
      {o : Option (List Item × Loading)} (st st' : Loading)
      → Grows st st'
      → IfSome (Kept st') o
      → IfSome (Kept st) o
  Kept-grown st st' g is_none = is_none
  Kept-grown st st' g (is_some h) = is_some (IsGrown-trans _ _ _ g h)

  -- the items of an inline module are loaded below it
  inline-Kept :
      (id : ℕ) (parent : Option ℕ) (path : List String) (file name : String) (kept : List Item)
      (st : Loading) (test : Bool) (o : Option (List Item × Loading))
      → StandsAt st.modules id parent path
      → IfSome (Kept (push_module (some id) (path ++ name ∷ []) file st)) o
      → IfSome (Kept st) (elim test [
        | true ↦ some (kept, st)
        | false ↦ o >>= close k f base go id name (length st.modules) kept
      ])
  inline-Kept id parent path file name kept st true o at h = is_some (IsGrown-refl st.modules)
  inline-Kept id parent path file name kept st false o at h =
      let pushed : Grows st (push_module (some id) (path ++ name ∷ []) file st) =
        push_module-IsGrown (some id) (path ++ name ∷ []) file st (λ p e.
          subst (λ j. j < length st.modules) (some-injective _ _ e)
            (StandsAt-below st.modules id parent path at)) in
      IfSome-bind h (λ r g.
        close-Kept id (length st.modules) parent path name kept st r at
          (IsGrown-trans _ _ _ pushed g)
          (StandsAt-grown _ _ (length st.modules) (some id) (path ++ name ∷ []) g
            (push_module-StandsAt (some id) (path ++ name ∷ []) file st)))

  mutual
    unfolding load_items load_item

    load_items-Kept :
        (id : ℕ) (parent : Option ℕ) (path : List String) (file : String) (dirs : Dirs)
        (items : Items) (kept : List Item) (st : Loading)
        → StandsAt st.modules id parent path
        → IfSome (Kept st) (load_items k f base go id path file dirs items kept st)
    load_items-Kept id parent path file dirs no_items kept st at = is_some (IsGrown-refl st.modules)
    load_items-Kept id parent path file dirs (and_item item rest) kept st at =
        IfSome-bind (load_item-Kept id parent path file dirs item kept st at) (λ r g.
          Kept-grown st r.1 g (
            load_items-Kept id parent path file dirs rest r.0 r.1
              (StandsAt-grown _ _ id parent path g at)))

    load_item-Kept :
        (id : ℕ) (parent : Option ℕ) (path : List String) (file : String) (dirs : Dirs)
        (item : Item) (kept : List Item) (st : Loading)
        → StandsAt st.modules id parent path
        → IfSome (Kept st) (load_item k f base go id path file dirs item kept st)
    load_item-Kept id parent path file dirs (struct_item n ps attrs) kept st at =
        keep-Kept (struct_item n ps attrs) kept st
    load_item-Kept id parent path file dirs (enum_item n ps attrs) kept st at =
        keep-Kept (enum_item n ps attrs) kept st
    load_item-Kept id parent path file dirs (union_item n ps attrs) kept st at =
        keep-Kept (union_item n ps attrs) kept st
    load_item-Kept id parent path file dirs (trait_item n ps attrs) kept st at =
        keep-Kept (trait_item n ps attrs) kept st
    load_item-Kept id parent path file dirs (type_item n ps attrs) kept st at =
        keep-Kept (type_item n ps attrs) kept st
    load_item-Kept id parent path file dirs (fn_item n attrs) kept st at =
        keep-Kept (fn_item n attrs) kept st
    load_item-Kept id parent path file dirs (const_item n attrs) kept st at =
        keep-Kept (const_item n attrs) kept st
    load_item-Kept id parent path file dirs (static_item n attrs) kept st at =
        keep-Kept (static_item n attrs) kept st
    load_item-Kept id parent path file dirs (use_item colon tree attrs) kept st at =
        keep-Kept (use_item colon tree attrs) kept st
    load_item-Kept id parent path file dirs (other_item attrs) kept st at =
        keep-Kept (other_item attrs) kept st
    load_item-Kept id parent path file dirs (mod_file_item name line attrs) kept st at =
        load_declared-Kept id parent path file dirs name line attrs kept st at
    load_item-Kept id parent path file dirs (mod_item name inner attrs) kept st at =
        inline-Kept id parent path file name kept st (is_cfg_test k attrs) _ at (
          load_items-Kept (length st.modules) (some id) (path ++ name ∷ []) file
            (inline_dirs k f base go name dirs) inner []
            (push_module (some id) (path ++ name ∷ []) file st)
            (push_module-StandsAt (some id) (path ++ name ∷ []) file st))

  add_module-IsLoader : IsLoader (add_module k f base go)
  unfolding add_module
  add_module-IsLoader parent path file dirs items st before =
      IfSome-bind
        (load_items-Kept (length st.modules) parent path file dirs items []
          (push_module parent path file st) (push_module-StandsAt parent path file st))
        (λ r g.
          let s = set_items-IsGrown (length st.modules) r.0 r.1 in
          is_some (
            IsGrown-trans _ _ _
                (IsGrown-trans _ _ _ (push_module-IsGrown parent path file st before) g) s,
            StandsAt-grown _ _ (length st.modules) parent path (IsGrown-trans _ _ _ g s)
                (push_module-StandsAt parent path file st),
          ))

module _ (k : CharClasses) (f : Files) (base : String) where
  pub loads-IsLoader : (fuel : ℕ) → IsLoader (loads k f base fuel)
  unfolding loads
  loads-IsLoader zero parent path file dirs items st before = is_none
  loads-IsLoader (suc fuel) parent path file dirs items st before =
      add_module-IsLoader k f base (loads k f base fuel) (loads-IsLoader fuel) parent path file dirs
        items st before
