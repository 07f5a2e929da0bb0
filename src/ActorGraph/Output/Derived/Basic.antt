-- ===== src/ActorGraph/Output/Derived/Basic.antt =====
-- The derived orders of texts and of the small types of rsactor-graph/src/model.rs.
use Prim.Native.Char.{Char, code}
use text.Mathlib.TextEquality.{Char-path}
use rsactor.Base.{ℕ, ◌≡◌, refl, ap, String, Option, none, some, List, [], ◌∷◌, get_elem?}
use rsactor.ActorGraph.Model.{
  Resolution, exact, assumed, inferred, unresolved, rank, Location, EdgeKind, holds, spawn, tell,
  ask, Category, declaration, unresolved_edge, unclassified, unsupported_receiver, ufcs,
  macro_candidate, unresolved_spawn, cross_check,
}
use rsactor.ActorGraph.Output.{TotalOrder}
use rsactor.ActorGraph.Output.Derived.{nat_order, by_key, pair_order, list_order, option_order}

chars : String → List Char
chars String.[] = []
chars (String.◌∷◌ c s) = c ∷ chars s

string : List Char → String
string [] = ""
string (c ∷ cs) = String.◌∷◌ c (string cs)

string-chars : (s : String) → string (chars s) ≡ s
unfolding chars string
string-chars String.[] = refl
string-chars (String.◌∷◌ c s) = ap (String.◌∷◌ c) (string-chars s)

char_order : TotalOrder Char
char_order = record {
  le = λ a b. nat_order.le (code a) (code b);
  le-refl = λ a. nat_order.le-refl (code a);
  le-trans = λ a b c. nat_order.le-trans (code a) (code b) (code c);
  le-antisymm = λ a b h g. Char-path a b (nat_order.le-antisymm (code a) (code b) h g);
  le-total = λ a b. nat_order.le-total (code a) (code b);
}

pub text_order : TotalOrder String
text_order = by_key chars string string-chars (list_order char_order)

-- the variant at a place, of a list of all of them
abbrev variant : {A : Type 0} → A → List A → ℕ → A
variant a as_declared n = elim (get_elem? as_declared n) [ some x ↦ x | none ↦ a ]

pub resolution_order : TotalOrder Resolution
unfolding rank
resolution_order = by_key rank of_rank back nat_order
  where
    of_rank : ℕ → Resolution
    of_rank = variant exact (exact ∷ assumed ∷ inferred ∷ unresolved ∷ [])

    back : (r : Resolution) → of_rank (rank r) ≡ r
    back exact = refl
    back assumed = refl
    back inferred = refl
    back unresolved = refl

pub kind_order : TotalOrder EdgeKind
kind_order = by_key place of_place back nat_order
  where
    place : EdgeKind → ℕ
    place holds = 0
    place spawn = 1
    place tell = 2
    place ask = 3

    of_place : ℕ → EdgeKind
    of_place = variant holds (holds ∷ spawn ∷ tell ∷ ask ∷ [])

    back : (k : EdgeKind) → of_place (place k) ≡ k
    back holds = refl
    back spawn = refl
    back tell = refl
    back ask = refl

pub category_order : TotalOrder Category
category_order = by_key place of_place back nat_order
  where
    place : Category → ℕ
    place declaration = 0
    place unresolved_edge = 1
    place unclassified = 2
    place unsupported_receiver = 3
    place ufcs = 4
    place macro_candidate = 5
    place unresolved_spawn = 6
    place cross_check = 7

    of_place : ℕ → Category
    of_place = variant declaration (
        declaration ∷ unresolved_edge ∷ unclassified ∷ unsupported_receiver ∷ ufcs ∷ macro_candidate
        ∷ unresolved_spawn ∷ cross_check ∷ [])

    back : (k : Category) → of_place (place k) ≡ k
    back declaration = refl
    back unresolved_edge = refl
    back unclassified = refl
    back unsupported_receiver = refl
    back ufcs = refl
    back macro_candidate = refl
    back unresolved_spawn = refl
    back cross_check = refl

pub location_order : TotalOrder Location
location_order =
    by_key (λ l. (l.file, l.line)) (λ x. record { file = x.0; line = x.1 }) (λ l. refl)
      (pair_order text_order nat_order)

pub optional_text : TotalOrder (Option String)
optional_text = option_order text_order
