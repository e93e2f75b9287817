-- ===== src/Effect/Steps.antt =====
-- Relations between the database before and after an action, one rule for each way to build an
-- action.
use dead_switch.Common.{
  ◌≡◌, refl, ℕ, suc, Bool, true, false, List, [], ◌∷◌, Option, none, some, if◌then◌else◌,
}
use dead_switch.Schema.{Error}
use dead_switch.World.{Env, Db, Mem, World}
use dead_switch.Effect.{
  Outcome, done, fail, M, final, pure, throw, continue, ◌>>=◌, ◌>>◌, gets, ask, clock, recall,
  modify, remember, fresh, try_catch, handle, transaction, commit, require, when, with_option,
  or_throw, for_each, finish, finally,
}

pub record Preorder : Type 1 where
  pub rel : Db → Db → Type 0
  pub reflexive : (d : Db) → rel d d
  pub transitive : (a b c : Db) → rel a b → rel b c → rel a c
  -- Handing out an identifier is no step of any of them.
  pub serial_free : (d : Db) (n : ℕ) → rel d (record d { serial = n })

pub record Steps (P : Preorder) {A : Type 0} (m : M A) : Type 0 where
  pub at : (w : World) → P.rel w.db (final (m w)).db

module _ (P : Preorder) {A : Type 0} where
  Steps-handle :
      (d : Db) (o : Outcome A) (h : Error → M A)
      → P.rel d (final o).db
      → ((e : Error) → Steps P (h e))
      → P.rel d (final (handle o h)).db
  Steps-handle d (done a w) h r sh = r
  Steps-handle d (fail e w) h r sh = P.transitive d w.db _ r ((sh e).at w)

  Steps-commit : (d : Db) (o : Outcome A) → P.rel d (final o).db → P.rel d (final (commit d o)).db
  Steps-commit d (done a w) r = r
  Steps-commit d (fail e w) r = P.reflexive d

module _ (P : Preorder) {A B : Type 0} where
  Steps-continue :
      (d : Db) (o : Outcome A) (f : A → M B)
      → P.rel d (final o).db
      → ((a : A) → Steps P (f a))
      → P.rel d (final (continue o f)).db
  Steps-continue d (done a w) f r sf = P.transitive d w.db _ r ((sf a).at w)
  Steps-continue d (fail e w) f r sf = r

module _ {P : Preorder} {A : Type 0} where
  pub Steps-pure : (a : A) → Steps P (pure a)
  unfolding pure
  Steps-pure a = record { at = λ w. P.reflexive w.db }

  pub Steps-throw : (e : Error) → Steps P (throw {A = A} e)
  unfolding throw
  Steps-throw e = record { at = λ w. P.reflexive w.db }

  pub Steps-gets : (f : Db → A) → Steps P (gets f)
  unfolding gets
  Steps-gets f = record { at = λ w. P.reflexive w.db }

  pub Steps-ask : (f : Env → A) → Steps P (ask f)
  unfolding ask
  Steps-ask f = record { at = λ w. P.reflexive w.db }

  pub Steps-recall : (f : Mem → A) → Steps P (recall f)
  unfolding recall
  Steps-recall f = record { at = λ w. P.reflexive w.db }

  pub Steps-if : (b : Bool) (m n : M A) → Steps P m → Steps P n → Steps P (if b then m else n)
  Steps-if true m n sm sn = sm
  Steps-if false m n sm sn = sn

  pub Steps-try_catch :
      (m : M A) (h : Error → M A)
      → Steps P m
      → ((e : Error) → Steps P (h e))
      → Steps P (try_catch m h)
  unfolding try_catch
  Steps-try_catch m h sm sh = record { at = λ w. Steps-handle P w.db (m w) h (sm.at w) sh }

  pub Steps-transaction : (m : M A) → Steps P m → Steps P (transaction m)
  unfolding transaction
  Steps-transaction m sm = record { at = λ w. Steps-commit P w.db (m w) (sm.at w) }

module _ {P : Preorder} where
  pub Steps-modify : (f : Db → Db) → ((d : Db) → P.rel d (f d)) → Steps P (modify f)
  unfolding modify
  Steps-modify f r = record { at = λ w. r w.db }

  pub Steps-remember : (f : Mem → Mem) → Steps P (remember f)
  unfolding remember
  Steps-remember f = record { at = λ w. P.reflexive w.db }

  pub Steps-clock : Steps P clock
  unfolding clock
  Steps-clock = record { at = λ w. P.reflexive w.db }

  pub Steps-fresh : Steps P fresh
  unfolding fresh
  Steps-fresh = record { at = λ w. P.serial_free w.db (suc w.db.serial) }

  pub Steps-require : (b : Bool) (e : Error) → Steps P (require b e)
  unfolding require
  Steps-require true e = Steps-pure tt
  Steps-require false e = Steps-throw e

  pub Steps-when : (b : Bool) (m : M (Unit {0})) → Steps P m → Steps P (when b m)
  unfolding when
  Steps-when true m sm = sm
  Steps-when false m sm = Steps-pure tt

module _ {P : Preorder} {A B : Type 0} where
  pub Steps-bind :
      (m : M A) (f : A → M B) → Steps P m → ((a : A) → Steps P (f a)) → Steps P (m >>= f)
  unfolding ◌>>=◌
  Steps-bind m f sm sf = record { at = λ w. Steps-continue P w.db (m w) f (sm.at w) sf }

  pub Steps-with_option :
      (o : Option A) (n : M B) (s : A → M B)
      → Steps P n
      → ((a : A) → Steps P (s a))
      → Steps P (with_option o n s)
  unfolding with_option
  Steps-with_option none n s sn ss = sn
  Steps-with_option (some a) n s sn ss = ss a

module _ (P : Preorder) {A : Type 0} where
  Steps-finish :
      (d : Db) (o : Outcome A) (k : M (Unit {0}))
      → P.rel d (final o).db
      → Steps P k
      → P.rel d (final (finish o k)).db
  Steps-finish d (done a w) k r sk =
      Steps-continue P d (k w) (λ _ v. done a v) (P.transitive d w.db _ r (sk.at w))
        (λ _. record { at = λ v. P.reflexive v.db })
  Steps-finish d (fail e w) k r sk =
      Steps-continue P {A = Unit {0}} {B = A} d (k w) (λ _ v. fail e v)
        (P.transitive d w.db _ r (sk.at w)) (λ _. record { at = λ v. P.reflexive v.db })

  pub Steps-finally : (m : M A) (k : M (Unit {0})) → Steps P m → Steps P k → Steps P (finally m k)
  unfolding finally
  Steps-finally m k sm sk = record { at = λ w. Steps-finish w.db (m w) k (sm.at w) sk }

module _ {P : Preorder} {A : Type 0} where
  pub Steps-for_each :
      (xs : List A) (body : A → M (Unit {0}))
      → ((a : A) → Steps P (body a))
      → Steps P (for_each xs body)
  unfolding for_each
  Steps-for_each [] body sb = Steps-pure tt
  Steps-for_each (x ∷ xs) body sb =
      Steps-bind (body x) (λ _. for_each xs body) (sb x) (λ _. Steps-for_each xs body sb)

module _ {P : Preorder} {A : Type 0} where
  pub Steps-or_throw : (o : Option A) (e : Error) → Steps P (or_throw o e)
  unfolding or_throw
  Steps-or_throw none e = Steps-throw e
  Steps-or_throw (some a) e = Steps-pure a

module _ {P : Preorder} {A B : Type 0} where
  -- The rest may use that the row is there.
  pub Steps-or_throw_bind :
      (o : Option A) (e : Error) (f : A → M B)
      → ((a : A) → o ≡ some a → Steps P (f a))
      → Steps P (or_throw o e >>= f)
  unfolding or_throw throw pure ◌>>=◌
  Steps-or_throw_bind none e f sf = record { at = λ w. P.reflexive w.db }
  Steps-or_throw_bind (some a) e f sf = record { at = λ w. (sf a refl).at w }

module _ {P : Preorder} {B : Type 0} where
  pub Steps-then : (m : M (Unit {0})) (k : M B) → Steps P m → Steps P k → Steps P (m >> k)
  Steps-then m k sm sk = Steps-bind m (λ _. k) sm (λ _. sk)

pub ruleset steps_rules = (
  Steps-pure, Steps-throw, Steps-gets, Steps-ask, Steps-clock, Steps-recall, Steps-if,
  Steps-try_catch, Steps-transaction, Steps-modify, Steps-remember, Steps-fresh, Steps-require,
  Steps-when, Steps-bind, Steps-then, Steps-with_option, Steps-or_throw, Steps-for_each,
  Steps-finally,
)
