-- ===== src/ActorGraph/Types/Substitution.antt =====
-- Replacing generic parameters in rsactor-graph/src/types.rs, as the expansion of an alias does.
use text.Mathlib.Text.{◌==◌}
use rsactor.Base.{◌≡◌, refl, sym, ap, subst, ◌∙◌, inl, inr, String, some, List, [], ◌∷◌, Bool-cases}
use rsactor.ActorGraph.Types.{
  Ty, declared, rsactor_type, std, external, generic, reference, tuple, slice, dyn, impl_trait,
  iter, unknown, Tys, nil, cons, argument, replaced, substitute, substitute_all,
}

-- Every generic parameter of the type has an argument.
unfoldable mutual
  pub IsCovered : List String → Tys → Ty → Type 0
  IsCovered params args (generic name) = (t : Ty) × (argument name params args ≡ some t)
  IsCovered params args (declared id a i) = AreCovered params args a
  IsCovered params args (rsactor_type name a) = AreCovered params args a
  IsCovered params args (std path a) = AreCovered params args a
  IsCovered params args (external path a) = AreCovered params args a
  IsCovered params args (reference inner) = IsCovered params args inner
  IsCovered params args (slice inner) = IsCovered params args inner
  IsCovered params args (iter inner) = IsCovered params args inner
  IsCovered params args (tuple items) = AreCovered params args items
  IsCovered params args (dyn items) = AreCovered params args items
  IsCovered params args (impl_trait items) = AreCovered params args items
  IsCovered params args (unknown text) = Unit {0}

  pub AreCovered : List String → Tys → Tys → Type 0
  AreCovered params args nil = Unit {0}
  AreCovered params args (cons t ts) = IsCovered params args t × AreCovered params args ts

argument-substitute_all :
    (name : String) (params qs : List String) (args bs : Tys) (t : Ty)
    → argument name params args ≡ some t
    → argument name params (substitute_all qs bs args) ≡ some (substitute qs bs t)
unfolding argument substitute
argument-substitute_all name [] qs args bs t h = cc
argument-substitute_all name (p ∷ params) qs nil bs t h = cc
argument-substitute_all name (p ∷ params) qs (cons a args) bs t h = elim (Bool-cases (p == name)) [
  | inl y ↦
      let h' : some a ≡ some t = rw (y, argument) at h in
      rw (y, argument) (let e : a ≡ t = cc in ap (λ x. some (substitute qs bs x)) e)
  | inr n ↦
      let h' : argument name params args ≡ some t = rw (n, argument) at h in
      rw (n, argument) (argument-substitute_all name params qs args bs t h')
]

mutual
  unfolding substitute IsCovered replaced

  substitute-substitute :
      (params qs : List String) (args bs : Tys) (t : Ty)
      → IsCovered params args t
      → substitute qs bs (substitute params args t)
        ≡ substitute params (substitute_all qs bs args) t
  substitute-substitute params qs args bs (generic name) (u, h) =
      ap (λ x. substitute qs bs (replaced name x)) h
      ∙ sym (ap (replaced name) (argument-substitute_all name params qs args bs u h))
  substitute-substitute params qs args bs (declared id a i) c =
      ap (λ x. declared id x i) (substitute_all-substitute params qs args bs a c)
  substitute-substitute params qs args bs (rsactor_type name a) c =
      ap (rsactor_type name) (substitute_all-substitute params qs args bs a c)
  substitute-substitute params qs args bs (std path a) c =
      ap (std path) (substitute_all-substitute params qs args bs a c)
  substitute-substitute params qs args bs (external path a) c =
      ap (external path) (substitute_all-substitute params qs args bs a c)
  substitute-substitute params qs args bs (reference inner) c =
      ap reference (substitute-substitute params qs args bs inner c)
  substitute-substitute params qs args bs (slice inner) c =
      ap slice (substitute-substitute params qs args bs inner c)
  substitute-substitute params qs args bs (iter inner) c =
      ap iter (substitute-substitute params qs args bs inner c)
  substitute-substitute params qs args bs (tuple items) c =
      ap tuple (substitute_all-substitute params qs args bs items c)
  substitute-substitute params qs args bs (dyn items) c =
      ap dyn (substitute_all-substitute params qs args bs items c)
  substitute-substitute params qs args bs (impl_trait items) c =
      ap impl_trait (substitute_all-substitute params qs args bs items c)
  substitute-substitute params qs args bs (unknown text) c = refl

  substitute_all-substitute :
      (params qs : List String) (args bs ts : Tys)
      → AreCovered params args ts
      → substitute_all qs bs (substitute_all params args ts)
        ≡ substitute_all params (substitute_all qs bs args) ts
  substitute_all-substitute params qs args bs nil c = refl
  substitute_all-substitute params qs args bs (cons t ts) (c, d) =
      let e = substitute-substitute params qs args bs t c in
      let f = substitute_all-substitute params qs args bs ts d in cc

argument-IsCovered :
    (name : String) (params qs : List String) (args bs : Tys) (t : Ty)
    → AreCovered qs bs args
    → argument name params args ≡ some t
    → IsCovered qs bs t
unfolding argument IsCovered
argument-IsCovered name [] qs args bs t c h = cc
argument-IsCovered name (p ∷ params) qs nil bs t c h = cc
argument-IsCovered name (p ∷ params) qs (cons a args) bs t (c, d) h =
    elim (Bool-cases (p == name)) [
      | inl y ↦
          let h' : some a ≡ some t = rw (y, argument) at h in
          let e : a ≡ t = cc in subst (IsCovered qs bs) e c
      | inr n ↦
          let h' : argument name params args ≡ some t = rw (n, argument) at h in
          argument-IsCovered name params qs args bs t d h'
    ]

mutual
  unfolding substitute IsCovered replaced

  substitute-IsCovered :
      (params qs : List String) (args bs : Tys) (t : Ty)
      → IsCovered params args t
      → AreCovered qs bs args
      → IsCovered qs bs (substitute params args t)
  substitute-IsCovered params qs args bs (generic name) (u, h) d =
      subst (λ o. IsCovered qs bs (replaced name o)) (sym h)
        (argument-IsCovered name params qs args bs u d h)
  substitute-IsCovered params qs args bs (declared id a i) c d =
      substitute_all-AreCovered params qs args bs a c d
  substitute-IsCovered params qs args bs (rsactor_type name a) c d =
      substitute_all-AreCovered params qs args bs a c d
  substitute-IsCovered params qs args bs (std path a) c d =
      substitute_all-AreCovered params qs args bs a c d
  substitute-IsCovered params qs args bs (external path a) c d =
      substitute_all-AreCovered params qs args bs a c d
  substitute-IsCovered params qs args bs (reference inner) c d =
      substitute-IsCovered params qs args bs inner c d
  substitute-IsCovered params qs args bs (slice inner) c d =
      substitute-IsCovered params qs args bs inner c d
  substitute-IsCovered params qs args bs (iter inner) c d =
      substitute-IsCovered params qs args bs inner c d
  substitute-IsCovered params qs args bs (tuple items) c d =
      substitute_all-AreCovered params qs args bs items c d
  substitute-IsCovered params qs args bs (dyn items) c d =
      substitute_all-AreCovered params qs args bs items c d
  substitute-IsCovered params qs args bs (impl_trait items) c d =
      substitute_all-AreCovered params qs args bs items c d
  substitute-IsCovered params qs args bs (unknown text) c d = tt

  substitute_all-AreCovered :
      (params qs : List String) (args bs ts : Tys)
      → AreCovered params args ts
      → AreCovered qs bs args
      → AreCovered qs bs (substitute_all params args ts)
  substitute_all-AreCovered params qs args bs nil c d = tt
  substitute_all-AreCovered params qs args bs (cons t ts) (c, e) d = (
    substitute-IsCovered params qs args bs t c d,
    substitute_all-AreCovered params qs args bs ts e d,
  )
