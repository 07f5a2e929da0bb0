-- ===== src/ActorGraph/Types/Text.antt =====
-- The key and the label of a type in rsactor-graph/src/types.rs. Of the index of declarations in
-- resolve.rs they use the path and the name of a declaration.
use text.Mathlib.Text.{starts_with}
use rsactor.Base.{ℕ, String, ◌<>◌, Bool, true, false, ◌||◌, List, [], ◌∷◌, if◌then◌else◌}
use rsactor.Base.Text.{join}
use rsactor.ActorGraph.Types.{
  Ty, declared, rsactor_type, std, external, generic, reference, tuple, slice, dyn, impl_trait,
  iter, unknown, Tys, nil, cons,
}

pub record Index : Type 0 where
  pub decl_path : ℕ → String
  pub decl_name : ℕ → String

unfoldable pub contains_separator : String → Bool
contains_separator String.[] = false
contains_separator (String.◌∷◌ c s) = starts_with (String.◌∷◌ c s) "::" || contains_separator s

-- what stands behind the separator, if a text starts with it
unfoldable pub without_separator : String → String
without_separator (String.◌∷◌ c (String.◌∷◌ d s)) =
    if starts_with (String.◌∷◌ c (String.◌∷◌ d s)) "::" then s else String.◌∷◌ c (String.◌∷◌ d s)
without_separator s = s

-- `path.rsplit("::").next()`: what stands behind the last separator
unfoldable pub last_segment : String → String
unfolding contains_separator without_separator
last_segment String.[] = ""
last_segment (String.◌∷◌ c s) =
    let later = last_segment s in
    if contains_separator s then later else without_separator (String.◌∷◌ c s)

-- `args`, on the rendered arguments
unfoldable pub render_args : List String → String
render_args [] = ""
render_args (a ∷ args) = "<" <> (join ", " (a ∷ args) <> ">")

-- `name`
unfoldable pub render_name : Bool → String → String
unfolding last_segment
render_name full path = if full then path else last_segment path

-- `FnOnce(u32)` keeps its parenthesised arguments verbatim
unfoldable pub parenthesised : Tys → List String → String
unfolding render_args
parenthesised (cons (unknown paren) nil) rendered =
    if starts_with paren "(" then paren else render_args rendered
parenthesised _ rendered = render_args rendered

-- `Ty::render`
unfoldable mutual
  unfolding render_args render_name parenthesised

  pub render : Index → Bool → Ty → String
  render index full (declared id args i) =
      (if full then index.decl_path id else index.decl_name id)
      <> render_args (render_all index full args)
  render index full (rsactor_type name args) =
      (if full then "rsactor::" <> name else name) <> render_args (render_all index full args)
  render index full (std path args) =
      render_name full path <> parenthesised args (render_all index full args)
  render index full (external path args) =
      render_name full path <> parenthesised args (render_all index full args)
  render index full (generic name) = name
  render index full (reference inner) = "&" <> render index full inner
  render index full (tuple items) = "(" <> (join ", " (render_all index full items) <> ")")
  render index full (slice inner) = "[" <> (render index full inner <> "]")
  render index full (iter inner) = "Iterator<" <> (render index full inner <> ">")
  render index full (dyn bounds) = "dyn " <> join " + " (render_all index full bounds)
  render index full (impl_trait bounds) = "impl " <> join " + " (render_all index full bounds)
  render index full (unknown text) = text

  pub render_all : Index → Bool → Tys → List String
  render_all index full nil = []
  render_all index full (cons t ts) = render index full t ∷ render_all index full ts

-- `Ty::key`
unfoldable pub key : Index → Ty → String
unfolding render
key index (declared id args i) = index.decl_path id
key index t = render index true t

-- `Ty::label`
unfoldable pub label : Index → Ty → String
unfolding render
label index t = render index false t
