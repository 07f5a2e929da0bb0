-- ===== src/Base/Counting.antt =====
-- How many elements of a list fail a test: the measure of searches that never do one thing twice.
use mathlib.Core.List.{List, [], ◌∷◌, Memᴰ}
use Prim.Native.Nat.{ℕ, ◌+◌, ◌≤◌, ◌<◌}
use mathlib.Core.Path.{◌≡◌, subst}
use mathlib.Core.Bool.{Bool, true, false}
use native.Mathlib.Omega.{arith}
use rsactor.Base.Tests.{if◌then◌else◌}
use rsactor.Base.Lists.{length}

module _ {A : Type 0} where
  unfoldable pub unless : (A → Bool) → List A → ℕ
  unless test [] = 0
  unless test (x ∷ xs) = (if test x then 0 else 1) + unless test xs

  pub unless-length : (test : A → Bool) (xs : List A) → unless test xs ≤ length xs
  unfolding unless
  unless-length test [] = omega arith
  unless-length test (x ∷ xs) = ground (arith, unless-length test xs)

  -- a weaker test fails less
  pub unless-le :
      (test weaker : A → Bool) (xs : List A)
      → ((x : A) → test x ≡ true → weaker x ≡ true)
      → unless weaker xs ≤ unless test xs
  unfolding unless
  unless-le test weaker [] h = omega arith
  unless-le test weaker (x ∷ xs) h = ground (arith, unless-le test weaker xs h, h x)

  -- by one less at least, where one element passes that failed
  pub unless-lt :
      (test weaker : A → Bool) (xs : List A) (k : A)
      → ((x : A) → test x ≡ true → weaker x ≡ true)
      → Memᴰ k xs
      → test k ≡ false
      → weaker k ≡ true
      → unless weaker xs < unless test xs
  unfolding unless
  unless-lt test weaker [] k h m f t = elim m [ ]
  unless-lt test weaker (x ∷ xs) k h (Memᴰ.head e) f t =
      let f' : test x ≡ false = subst (λ y. test y ≡ false) e f in
      let t' : weaker x ≡ true = subst (λ y. weaker y ≡ true) e t in
      ground (arith, unless-le test weaker xs h)
  unless-lt test weaker (x ∷ xs) k h (Memᴰ.tail m) f t =
      ground (arith, unless-lt test weaker xs k h m f t, h x)
