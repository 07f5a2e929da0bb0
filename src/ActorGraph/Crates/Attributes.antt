-- ===== src/ActorGraph/Crates/Attributes.antt =====
-- The attributes that rsactor-graph/src/crate_tree.rs reads. What `char` says of a character is a
-- parameter.
use Prim.Native.Char.{Char, code}
use text.Mathlib.Text.{◌==◌}
use rsactor.Base.{
  ℕ, String, Bool, true, false, ◌&&◌, ◌||◌, Option, none, some, List, [], ◌∷◌, if◌then◌else◌,
}
use rsactor.Base as Base
use rsactor.ActorGraph.Syntax.{
  Attribute, word, list, name_value, Item, struct_item, enum_item, union_item, trait_item,
  type_item, fn_item, const_item, static_item, use_item, mod_item, mod_file_item, other_item,
}

-- `char::is_alphanumeric` and `char::is_whitespace`
pub record CharClasses : Type 0 where
  pub is_alphanumeric : ℕ → Bool
  pub is_whitespace : ℕ → Bool

unfoldable pub is_space : ℕ → Bool
is_space c = Base.◌==◌ c b' '

module _ (k : CharClasses) where
  unfoldable pub is_word : ℕ → Bool
  is_word c = k.is_alphanumeric c || (Base.◌==◌ c b'_') || (Base.◌==◌ c b'\'')

  unfoldable pub starts_word : String → Bool
  unfolding is_word is_space
  starts_word String.[] = false
  starts_word (String.◌∷◌ c s) =
      let rest = starts_word s in if is_space (code c) then rest else is_word (code c)

  unfoldable pub ends_word : Option ℕ → Bool
  unfolding is_word
  ends_word none = false
  ends_word (some c) = is_word c

  -- the loop of `compact_tokens`, with the last character that it has put out
  unfoldable pub compact_after : Option ℕ → String → String
  unfolding is_space starts_word ends_word
  compact_after prev String.[] = ""
  compact_after prev (String.◌∷◌ c s) = elim (is_space (code c)) [
    | false ↦ String.◌∷◌ c (compact_after (some (code c)) s)
    | true ↦ elim (ends_word prev && starts_word s) [
      | true ↦ String.◌∷◌ " " (compact_after (some b' ') s)
      | false ↦ compact_after prev s
    ]
  ]

  unfoldable pub compact_tokens : String → String
  unfolding compact_after
  compact_tokens text = compact_after none text

  unfoldable pub trim_start : String → String
  trim_start String.[] = ""
  trim_start (String.◌∷◌ c s) =
      let rest = trim_start s in if k.is_whitespace (code c) then rest else String.◌∷◌ c s

  unfoldable pub trim_end : String → String
  trim_end String.[] = ""
  trim_end (String.◌∷◌ c s) =
      let rest = trim_end s in
      if k.is_whitespace (code c) && (rest == "") then "" else String.◌∷◌ c rest

  unfoldable pub trim : String → String
  unfolding trim_start trim_end
  trim s = trim_end (trim_start s)

-- `str::strip_prefix`
unfoldable pub strip_prefix : String → String → Option String
strip_prefix String.[] s = some s
strip_prefix (String.◌∷◌ p prefix) String.[] = none
strip_prefix (String.◌∷◌ p prefix) (String.◌∷◌ c s) =
    let rest = strip_prefix prefix s in if Base.◌==◌ (code p) (code c) then rest else none

-- `str::strip_suffix` of one character
unfoldable pub strip_last : ℕ → String → Option String
strip_last last String.[] = none
strip_last last (String.◌∷◌ c String.[]) = if Base.◌==◌ (code c) last then some "" else none
strip_last last (String.◌∷◌ c (String.◌∷◌ d s)) = elim (strip_last last (String.◌∷◌ d s)) [
  | none ↦ none
  | some t ↦ some (String.◌∷◌ c t)
]

unfoldable pub first_part : Char → List String → List String
first_part c [] = []
first_part c (part ∷ parts) = String.◌∷◌ c part ∷ parts

-- `str::split` at a character
unfoldable pub split_at : ℕ → String → List String
unfolding first_part
split_at at String.[] = "" ∷ []
split_at at (String.◌∷◌ c s) =
    let rest = split_at at s in if Base.◌==◌ (code c) at then "" ∷ rest else first_part c rest

unfoldable pub has_test : CharClasses → List String → Bool
unfolding trim
has_test k [] = false
has_test k (part ∷ parts) = (trim k part == "test") || has_test k parts

-- the predicate of a `cfg`
unfoldable pub is_test_predicate : CharClasses → String → Bool
unfolding strip_prefix strip_last split_at has_test
is_test_predicate k predicate = (predicate == "test") || (elim (strip_prefix "all(" predicate) [
  | none ↦ false
  | some rest ↦ elim (strip_last b')' rest) [
    | none ↦ false
    | some inner ↦ has_test k (split_at b',' inner)
  ]
])

-- `is_cfg_test`
unfoldable pub is_cfg_test : CharClasses → List Attribute → Bool
unfolding compact_tokens is_test_predicate
is_cfg_test k [] = false
is_cfg_test k (word path ∷ attrs) = is_cfg_test k attrs
is_cfg_test k (name_value path v ∷ attrs) = is_cfg_test k attrs
is_cfg_test k (list path tokens ∷ attrs) =
    ((path == "cfg") && is_test_predicate k (compact_tokens k tokens)) || is_cfg_test k attrs

-- `path_attr`
unfoldable pub path_attr : List Attribute → Option String
path_attr [] = none
path_attr (word path ∷ attrs) = path_attr attrs
path_attr (list path tokens ∷ attrs) = path_attr attrs
path_attr (name_value path none ∷ attrs) = path_attr attrs
path_attr (name_value path (some v) ∷ attrs) =
    let rest = path_attr attrs in if path == "path" then some v else rest

-- `item_attrs`
unfoldable pub item_attrs : Item → List Attribute
item_attrs (struct_item name params attrs) = attrs
item_attrs (enum_item name params attrs) = attrs
item_attrs (union_item name params attrs) = attrs
item_attrs (trait_item name params attrs) = attrs
item_attrs (type_item name params attrs) = attrs
item_attrs (fn_item name attrs) = attrs
item_attrs (const_item name attrs) = attrs
item_attrs (static_item name attrs) = attrs
item_attrs (use_item colon tree attrs) = attrs
item_attrs (mod_item name items attrs) = attrs
item_attrs (mod_file_item name line attrs) = attrs
item_attrs (other_item attrs) = attrs
