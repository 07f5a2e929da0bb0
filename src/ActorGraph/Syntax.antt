-- ===== src/ActorGraph/Syntax.antt =====
-- What the tool reads of the syntax trees of the library `syn`: the items of a module, their
-- attributes and the trees of `use` declarations. Items that it passes over are `other_item`.
use rsactor.Base.{ℕ, String, Bool, Option, List}

-- `#[path]`, `#[path(tokens)]` and `#[path = value]`, with the value when it is a string literal
pub data Attribute : Type 0 where
  word : String → Attribute
  list : String → String → Attribute
  name_value : String → Option String → Attribute

pub data GenericParam : Type 0 where
  type_param : String → GenericParam
  lifetime_param : String → GenericParam
  const_param : String → GenericParam

mutual
  pub data UseTree : Type 0 where
    use_path : String → UseTree → UseTree
    use_name : String → UseTree
    use_rename : String → String → UseTree
    use_glob : UseTree
    use_group : UseTrees → UseTree

  pub data UseTrees : Type 0 where
    no_uses : UseTrees
    and_use : UseTree → UseTrees → UseTrees

mutual
  pub data Item : Type 0 where
    struct_item : String → List GenericParam → List Attribute → Item
    enum_item : String → List GenericParam → List Attribute → Item
    union_item : String → List GenericParam → List Attribute → Item
    trait_item : String → List GenericParam → List Attribute → Item
    type_item : String → List GenericParam → List Attribute → Item
    fn_item : String → List Attribute → Item
    const_item : String → List Attribute → Item
    static_item : String → List Attribute → Item
    -- whether the path has a leading `::`
    use_item : Bool → UseTree → List Attribute → Item
    -- `mod name { items }`
    mod_item : String → Items → List Attribute → Item
    -- `mod name;` with its line
    mod_file_item : String → ℕ → List Attribute → Item
    other_item : List Attribute → Item

  pub data Items : Type 0 where
    no_items : Items
    and_item : Item → Items → Items
