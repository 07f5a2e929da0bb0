-- ===== src/Identity.antt =====
-- `Identity` of src/lib.rs: an actor's number with the name of its type, and its `Display`.
use rsactor.Base.{
  ℕ, zero, suc, ◌/◌, ◌%◌, String, ◌<>◌, none, some, [], ◌∷◌, get_elem?, ltb, if◌then◌else◌,
}

pub record Identity : Type 0 where
  pub id : ℕ
  pub type_name : String

digit : ℕ → String
digit d =
    elim (get_elem? {A = String} ("0" ∷ "1" ∷ "2" ∷ "3" ∷ "4" ∷ "5" ∷ "6" ∷ "7" ∷ "8" ∷ "9" ∷ [])
      d) [ none ↦ "" | some c ↦ c ]

-- the decimal digits of a number; each round divides by ten
digits : ℕ → ℕ → String
unfolding digit
digits zero n = ""
digits (suc fuel) n =
    let more = digits fuel (n / 10) <> digit (n % 10) in if ltb n 10 then digit n else more

pub decimal : ℕ → String
unfolding digits
decimal n = digits (suc n) n

-- `write!(f, "{}(#{})", self.type_name, self.id)`
unfoldable pub show_identity : Identity → String
unfolding decimal
show_identity i = i.type_name <> ("(#" <> (decimal i.id <> ")"))
