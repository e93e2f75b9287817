-- ===== src/Common/Tables.antt =====
-- Laws of the queries: a table in which one row answers to a key.
use dead_switch.Common.Lists.{find_first, count_where, update_many}
use dead_switch.Common.Tests.{if◌then◌else◌, some_inj, Bool-cases}
use mathlib.Core.Path.{◌≡◌, refl, subst, ◌∙◌}
use mathlib.Core.Bool.{Bool, true, false, ◌&&◌}
use mathlib.Core.Option.{some}
use mathlib.Core.Logic.{inl, inr}
use mathlib.Core.List.{List, [], ◌∷◌, ◌++◌}
use native.Mathlib.Omega.{arith}

module _ {ℓ} {A : Type ℓ} (p q : A → Bool) where
  -- No row has the key, so none has the key and passes the test.
  pub count_where-both_zero :
      (xs : List A) → count_where p xs ≡ 0 → count_where (λ x. p x && q x) xs ≡ 0
  unfolding count_where
  count_where-both_zero [] h = refl
  count_where-both_zero (x ∷ xs) h = ground (arith, count_where-both_zero xs)

  pub count_where-both_one :
      (xs : List A) (s : A)
      → find_first p xs ≡ some s
      → count_where p xs ≡ 1
      → q s ≡ true
      → count_where (λ x. p x && q x) xs ≡ 1
  unfolding count_where find_first
  count_where-both_one [] s f h t = cc
  count_where-both_one (x ∷ xs) s f h t =
      ground (arith, count_where-both_one xs s, count_where-both_zero xs)

  -- Where no row passes, an update changes nothing.
  pub update_many-none : (f : A → A) (xs : List A) → count_where p xs ≡ 0 → update_many p f xs ≡ xs
  unfolding count_where update_many
  update_many-none f [] h = refl
  update_many-none f (x ∷ xs) h = ground (arith, update_many-none f xs)

  -- The one row of the key fails the test.
  pub count_where-both_fails :
      (xs : List A) (s : A)
      → find_first p xs ≡ some s
      → count_where p xs ≡ 1
      → q s ≡ false
      → count_where (λ x. p x && q x) xs ≡ 0
  unfolding count_where find_first
  count_where-both_fails [] s f h t = refl
  count_where-both_fails (x ∷ xs) s f h t =
      ground (arith, count_where-both_fails xs s, count_where-both_zero xs)

  pub find_first-update_many :
      (f : A → A) (xs : List A) (s : A)
      → ((x : A) → p (f x) ≡ p x)
      → find_first p xs ≡ some s
      → q s ≡ true
      → find_first p (update_many (λ x. p x && q x) f xs) ≡ some (f s)
  unfolding find_first update_many
  find_first-update_many f [] s k h t = cc
  find_first-update_many f (x ∷ xs) s k h t =
      ground (arith, find_first-update_many f xs s k, k x, k s)

module _ {ℓ} {A : Type ℓ} (p : A → Bool) where
  pub find_first-holds : (xs : List A) (s : A) → find_first p xs ≡ some s → p s ≡ true
  unfolding find_first
  find_first-holds [] s h = cc
  find_first-holds (x ∷ xs) s h = ground (arith, find_first-holds xs s)

  -- The first row of a key, after an update that keeps keys and may touch it.
  pub find_first-update :
      (q : A → Bool) (f : A → A) (xs : List A) (s : A)
      → ((x : A) → p (f x) ≡ p x)
      → find_first p xs ≡ some s
      → find_first p (update_many q f xs) ≡ some (if q s then f s else s)
  unfolding find_first update_many
  find_first-update q f [] s k h = cc
  find_first-update q f (x ∷ xs) s k h = elim (Bool-cases (p x)) [
    | inl y ↦
        let same : x ≡ s = some_inj (rw y at h) in
        let stays = k x ∙ y in
        subst
          (λ z.
            find_first p ((if q x then f x else x) ∷ update_many q f xs)
            ≡ some (if q z then f z else z))
          same (ground (arith, stays, y))
    | inr n ↦
        (let stays = k x ∙ n in
          let ih = find_first-update q f xs s k (rw n at h) in ground (arith, stays, n, ih))
  ]

  pub find_first-append :
      (xs ys : List A) (s : A) → find_first p xs ≡ some s → find_first p (xs ++ ys) ≡ some s
  unfolding find_first
  find_first-append [] ys s h = cc
  find_first-append (x ∷ xs) ys s h = ground (arith, find_first-append xs ys s)

  -- Rows of other keys are found as before.
  pub find_first-update_other :
      (q : A → Bool) (f : A → A) (xs : List A)
      → ((x : A) → p (f x) ≡ p x)
      → ((x : A) → q x ≡ true → p x ≡ false)
      → find_first p (update_many q f xs) ≡ find_first p xs
  unfolding find_first update_many
  find_first-update_other q f [] k o = refl
  find_first-update_other q f (x ∷ xs) k o =
      ground (arith, find_first-update_other q f xs k o, k x, o x)

  -- A change that keeps the key keeps the number of its rows.
  pub count_where-update_many :
      (q : A → Bool) (f : A → A) (xs : List A)
      → ((x : A) → p (f x) ≡ p x)
      → count_where p (update_many q f xs) ≡ count_where p xs
  unfolding count_where update_many
  count_where-update_many q f [] k = refl
  count_where-update_many q f (x ∷ xs) k = ground (arith, count_where-update_many q f xs k, k x)
