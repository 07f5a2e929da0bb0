-- ===== src/ActorGraph/Render/Escape/Reading.antt =====
-- A reader of the label texts in a DOT file, for what rsactor-graph/src/render.rs writes there.
-- DOT reads a quoted label twice: between the quotes only a quote loses its backslash, and in the
-- label so found the other escapes are read. `read` does the two at once.
use Prim.Native.Char.{Char, code}
use Prim.Native.String.append
use text.Mathlib.TextEquality.{Char-path}
use rsactor.Base.{
  ℕ, ◌≡◌, ◌≢◌, refl, sym, ap, ◌∙◌, ◌⊎◌, inl, inr, String, ◌<>◌, Bool, true, false, ◌==◌, ==_iff,
  Bool-cases, if◌then◌else◌,
}
use rsactor.ActorGraph.Render.Escape.{backslash, newline, escape}

-- the character that stands after a backslash
abbrev pub meant : Char → Char
meant c = if code c == b'n' then "\n" else c

abbrev pub push : Char → String × String → String × String
push c (s, rest) = (String.◌∷◌ c s, rest)

-- Reads up to the first character of `stop` that no backslash stands before. The flag says that one does.
unfoldable pub read : (ℕ → Bool) → Bool → String → String × String
read stop escaped String.[] = ("", "")
read stop true (String.◌∷◌ c s) = push (meant c) (read stop false s)
read stop false (String.◌∷◌ c s) = elim (code c == backslash) [
  | true ↦ read stop true s
  | false ↦ elim (stop (code c)) [
    | true ↦ ("", String.◌∷◌ c s)
    | false ↦ push c (read stop false s)
  ]
]

module _ (stop : ℕ → Bool) where
  -- the reader takes an escaped character, or one that is neither a backslash nor a stop
  read-escaped :
      (c : Char) (s rest t : String)
      → read stop false (s <> rest) ≡ (t, rest)
      → read stop false (String.◌∷◌ "\\" (String.◌∷◌ c s) <> rest) ≡ (String.◌∷◌ (meant c) t, rest)
  unfolding read
  read-escaped c s rest t h =
      rw (append.cons "\\" (String.◌∷◌ c s) rest, append.cons c s rest) (ap (push (meant c)) h)

  read-plain :
      (c : Char) (s rest t : String)
      → (code c == backslash) ≡ false
      → stop (code c) ≡ false
      → read stop false (s <> rest) ≡ (t, rest)
      → read stop false (String.◌∷◌ c s <> rest) ≡ (String.◌∷◌ c t, rest)
  unfolding read
  read-plain c s rest t b e h = rw (append.cons c s rest) (rw (b, e, read) (ap (push c) h))

  meant-plain : (c : Char) → (code c == b'n') ≡ false → meant c ≡ c
  meant-plain c h = rw h refl

  -- A text that the reader stops at once.
  abbrev pub Stops : String → Type 0
  Stops rest = read stop false rest ≡ ("", rest)

  pub Stops-cons :
      (c : Char) (rest : String)
      → (code c == backslash) ≡ false
      → stop (code c) ≡ true
      → Stops (String.◌∷◌ c rest)
  unfolding read
  Stops-cons c rest b h = rw (b, h, read) refl

  -- Every character that stops the reader is special, and so is the backslash, but `n` is not.
  pub record IsCovered (special : ℕ → Bool) : Type 0 where
    pub stops_special : (n : ℕ) → stop n ≡ true → special n ≡ true
    pub backslash_special : special backslash ≡ true
    pub n_plain : special b'n' ≡ false

  differs : (f : ℕ → Bool) (n k : ℕ) → f n ≢ f k → (n == k) ≡ false
  differs f n k h = elim (Bool-cases (n == k)) [
    | inr d ↦ d
    | inl s ↦ absurd (h (ap f ((==_iff n k).0 s)))
  ]

  never_stops :
      (special : ℕ → Bool) (n : ℕ) → IsCovered special → special n ≡ false → stop n ≡ false
  never_stops special n v e = elim (Bool-cases (stop n)) [
    | inr d ↦ d
    | inl y ↦ let t = v.stops_special n y in cc
  ]

  read-escape_head :
      (special : ℕ → Bool) (c : Char) (s rest : String)
      → IsCovered special
      → read stop false (escape special s <> rest) ≡ (s, rest)
      → read stop false (escape special (String.◌∷◌ c s) <> rest) ≡ (String.◌∷◌ c s, rest)
  unfolding escape
  read-escape_head special c s rest v h =
      by_tests (Bool-cases (special (code c))) (Bool-cases (code c == newline))
    where
      by_tests :
          (special (code c) ≡ true) ⊎ (special (code c) ≡ false)
          → ((code c == newline) ≡ true) ⊎ ((code c == newline) ≡ false)
          → read stop false (escape special (String.◌∷◌ c s) <> rest) ≡ (String.◌∷◌ c s, rest)
      by_tests (inl y) l =
          rw (y, escape)
            (read-escaped c (escape special s) rest s h
              ∙ ap (λ x. (String.◌∷◌ x s, rest))
                  (meant-plain c (differs special (code c) b'n' (λ e. let f = v.n_plain in cc))))
      by_tests (inr n) (inl y) =
          let same : "\n" ≡ c = sym (Char-path c "\n" ((==_iff (code c) newline).0 y)) in
          rw (n, y, escape)
            (read-escaped "n" (escape special s) rest s h ∙ ap (λ x. (String.◌∷◌ x s, rest)) same)
      by_tests (inr n) (inr m) =
          rw (n, m, escape)
            (read-plain c (escape special s) rest s
              (differs special (code c) backslash (λ e. let t = v.backslash_special in cc))
              (never_stops special (code c) v n) h)

  pub read-escape :
      (special : ℕ → Bool) (s rest : String)
      → IsCovered special
      → Stops rest
      → read stop false (escape special s <> rest) ≡ (s, rest)
  unfolding escape
  read-escape special String.[] rest v h = rw (append.nil rest) h
  read-escape special (String.◌∷◌ c s) rest v h =
      read-escape_head special c s rest v (read-escape special s rest v h)
