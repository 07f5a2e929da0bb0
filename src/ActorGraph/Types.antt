-- ===== src/ActorGraph/Types.antt =====
-- `Ty` of rsactor-graph/src/types.rs: a type with every path resolved.
pub mod Text
pub mod Substitution
use text.Mathlib.Text.{◌==◌}
use rsactor.Base.{
  ℕ, String, Bool, true, false, ◌||◌, Option, none, some, List, [], ◌∷◌, if◌then◌else◌,
}
use rsactor.ActorGraph.Model.{Resolution, exact, inferred, unresolved, weakest}

mutual
  pub data Ty : Type 0 where
    -- the number of the declaration, and whether its path was inferred
    declared : ℕ → Tys → Bool → Ty
    rsactor_type : String → Tys → Ty
    std : String → Tys → Ty
    external : String → Tys → Ty
    generic : String → Ty
    reference : Ty → Ty
    tuple : Tys → Ty
    slice : Ty → Ty
    dyn : Tys → Ty
    impl_trait : Tys → Ty
    iter : Ty → Ty
    unknown : String → Ty

  pub data Tys : Type 0 where
    nil : Tys
    cons : Ty → Tys → Tys

-- the smart pointers that method calls see through
unfoldable pub is_pointer : String → Bool
is_pointer path =
    (path == "std::boxed::Box") || (path == "std::sync::Arc") || (path == "std::rc::Rc")

-- `Ty::auto_deref`
unfoldable pub auto_deref : Ty → Ty
unfolding is_pointer
auto_deref (reference inner) = auto_deref inner
auto_deref (std path (cons t nil)) =
    let inner = auto_deref t in if is_pointer path then inner else std path (cons t nil)
auto_deref (std path nil) = std path nil
auto_deref (std path (cons t (cons u ts))) = std path (cons t (cons u ts))
auto_deref (declared id args i) = declared id args i
auto_deref (rsactor_type name args) = rsactor_type name args
auto_deref (external path args) = external path args
auto_deref (generic name) = generic name
auto_deref (tuple items) = tuple items
auto_deref (slice inner) = slice inner
auto_deref (dyn bounds) = dyn bounds
auto_deref (impl_trait bounds) = impl_trait bounds
auto_deref (iter inner) = iter inner
auto_deref (unknown text) = unknown text

-- `Ty::rsactor`
unfoldable pub rsactor_args : String → Ty → Option Tys
unfolding auto_deref
rsactor_args wanted t = elim (auto_deref t) [
  | rsactor_type name args ↦ if name == wanted then some args else none
  | _ ↦ none
]

unfoldable pub is_handler : String → Bool
is_handler name =
    (name == "TellHandler")
    || (name == "AskHandler")
    || (name == "WeakTellHandler")
    || (name == "WeakAskHandler")

-- `bounds.iter().find_map(..)`
unfoldable pub find_handler : Tys → Option (String × Tys)
unfolding is_handler
find_handler nil = none
find_handler (cons (rsactor_type name args) bounds) =
    let rest = find_handler bounds in if is_handler name then some (name, args) else rest
find_handler (cons _ bounds) = find_handler bounds

-- `Ty::handler_trait`
unfoldable pub handler_trait : Ty → Option (String × Tys)
unfolding auto_deref find_handler
handler_trait t = elim (auto_deref t) [ dyn bounds ↦ find_handler bounds | _ ↦ none ]

-- the argument at the position of a parameter, if there is one
unfoldable pub argument : String → List String → Tys → Option Ty
argument name [] args = none
argument name (p ∷ params) nil = none
argument name (p ∷ params) (cons a args) =
    let rest = argument name params args in if p == name then some a else rest

-- `args[i].clone()`, or else `self.clone()`
unfoldable pub replaced : String → Option Ty → Ty
replaced name (some t) = t
replaced name none = generic name

-- `Ty::substitute`
unfoldable mutual
  unfolding argument replaced

  pub substitute : List String → Tys → Ty → Ty
  substitute params args (generic name) = replaced name (argument name params args)
  substitute params args (declared id a i) = declared id (substitute_all params args a) i
  substitute params args (rsactor_type name a) = rsactor_type name (substitute_all params args a)
  substitute params args (std path a) = std path (substitute_all params args a)
  substitute params args (external path a) = external path (substitute_all params args a)
  substitute params args (reference inner) = reference (substitute params args inner)
  substitute params args (slice inner) = slice (substitute params args inner)
  substitute params args (iter inner) = iter (substitute params args inner)
  substitute params args (tuple items) = tuple (substitute_all params args items)
  substitute params args (dyn items) = dyn (substitute_all params args items)
  substitute params args (impl_trait items) = impl_trait (substitute_all params args items)
  substitute params args (unknown text) = unknown text

  pub substitute_all : List String → Tys → Tys → Tys
  substitute_all params args nil = nil
  substitute_all params args (cons t ts) =
      cons (substitute params args t) (substitute_all params args ts)

-- `Ty::resolution`; `weakest_of` is the fold over the arguments
unfoldable mutual
  unfolding weakest

  pub resolution : Ty → Resolution
  resolution (declared id args i) = weakest_of (if i then inferred else exact) args
  resolution (rsactor_type name args) = weakest_of exact args
  resolution (std path args) = weakest_of exact args
  resolution (external path args) = weakest_of exact args
  resolution (generic name) = exact
  resolution (reference inner) = resolution inner
  resolution (slice inner) = resolution inner
  resolution (iter inner) = resolution inner
  resolution (tuple items) = weakest_of exact items
  resolution (dyn items) = weakest_of exact items
  resolution (impl_trait items) = weakest_of exact items
  resolution (unknown text) = unresolved

  pub weakest_of : Resolution → Tys → Resolution
  weakest_of acc nil = acc
  weakest_of acc (cons t ts) = weakest_of (weakest acc (resolution t)) ts
