-- ===== src/Effect.antt =====
-- The monad of the services: a `Promise` that reads and changes the world, and may be rejected.
-- What was written before a rejection stays written, except inside `transaction`.
pub mod Steps
use dead_switch.Common.{
  ◌≡◌, refl, ℕ, suc, ◌+◌, String, Bool, List, [], ◌∷◌, Option, none, some, if◌then◌else◌,
}
use dead_switch.Schema.{Error}
use dead_switch.World.{Env, Db, Mem, World}

pub data Outcome (A : Type 0) : Type 0 where
  done : A → World → Outcome A
  fail : Error → World → Outcome A

abbrev pub M : Type 0 → Type 0
M A = World → Outcome A

abbrev pub final : {A : Type 0} → Outcome A → World
final (done a w) = w
final (fail e w) = w

unfoldable pub pure : {A : Type 0} → A → M A
pure a w = done a w

unfoldable pub throw : {A : Type 0} → Error → M A
throw e w = fail e w

abbrev pub continue : {A B : Type 0} → Outcome A → (A → M B) → Outcome B
continue (done a w) f = f a w
continue (fail e w) f = fail e w

infixl 5 ◌>>=◌ ◌>>◌
unfoldable pub ◌>>=◌ : {A B : Type 0} → M A → (A → M B) → M B
◌>>=◌ m f w = continue (m w) f

abbrev pub ◌>>◌ : {B : Type 0} → M (Unit {0}) → M B → M B
m >> k = m >>= λ _. k

-- A query.
unfoldable pub gets : {A : Type 0} → (Db → A) → M A
gets f w = done (f w.db) w

unfoldable pub ask : {A : Type 0} → (Env → A) → M A
ask f w = done (f w.env) w

-- Date.now()
unfoldable pub clock : M ℕ
clock w = done w.now w

unfoldable pub recall : {A : Type 0} → (Mem → A) → M A
recall f w = done (f w.mem) w

-- A statement that changes rows.
unfoldable pub modify : (Db → Db) → M (Unit {0})
modify f w = done tt (record w { db = f w.db })

unfoldable pub remember : (Mem → Mem) → M (Unit {0})
remember f w = done tt (record w { mem = f w.mem })

-- A fresh `uuid()`.
unfoldable pub fresh : M String
fresh w = done (w.env.uuid w.db.serial) (record w { db = record w.db { serial = suc w.db.serial } })

abbrev pub handle : {A : Type 0} → Outcome A → (Error → M A) → Outcome A
handle (done a w) h = done a w
handle (fail e w) h = h e w

-- try { … } catch (e) { … }
unfoldable pub try_catch : {A : Type 0} → M A → (Error → M A) → M A
try_catch m h w = handle (m w) h

abbrev pub commit : {A : Type 0} → Db → Outcome A → Outcome A
commit before (done a w) = done a w
commit before (fail e w) = fail e (record w { db = before })

-- prisma.$transaction: a rejection rolls the database back, and not the memory of the process.
unfoldable pub transaction : {A : Type 0} → M A → M A
transaction m w = commit w.db (m w)

-- if (!b) throw e
unfoldable pub require : Bool → Error → M (Unit {0})
unfolding pure throw
require b e = if b then pure tt else throw e

-- if (b) m
unfoldable pub when : Bool → M (Unit {0}) → M (Unit {0})
unfolding pure
when b m = if b then m else pure tt

unfoldable pub with_option : {A B : Type 0} → Option A → M B → (A → M B) → M B
with_option none n s = n
with_option (some a) n s = s a

-- for (const x of xs) body(x)
unfoldable pub for_each : {A : Type 0} → List A → (A → M (Unit {0})) → M (Unit {0})
unfolding pure ◌>>=◌
for_each [] body = pure tt
for_each (x ∷ xs) body = body x >> for_each xs body

-- A row that has to be there.
unfoldable pub or_throw : {A : Type 0} → Option A → Error → M A
unfolding pure throw
or_throw none e = throw e
or_throw (some a) e = pure a

abbrev pub finish : {A : Type 0} → Outcome A → M (Unit {0}) → Outcome A
finish (done a w) k = continue (k w) (λ _ v. done a v)
finish (fail e w) k = continue (k w) (λ _ v. fail e v)

-- m.finally(k): `k` runs in either case, and an error of `m` is thrown on.
unfoldable pub finally : {A : Type 0} → M A → M (Unit {0}) → M A
finally m k w = finish (m w) k

-- What a committed bind went through.
pub >>=-eq-done :
    {A B : Type 0} (m : M A) (f : A → M B) (w : World) {b : B} {w' : World}
    → (m >>= f) w ≡ done b w'
    → (a : A) × (v : World) × (m w ≡ done a v) × (f a v ≡ done b w')
unfolding ◌>>=◌
>>=-eq-done {A} {B} m f w {b} {w'} h = split (m w) refl h
  where
    split :
        (o : Outcome A)
        → m w ≡ o
        → continue o f ≡ done b w'
        → (a : A) × (v : World) × (m w ≡ done a v) × (f a v ≡ done b w')
    split (done a v) e k = (a, v, e, k)
    split (fail x v) e k = cc

-- A transaction that has committed.
pub commit-eq-done :
    {A : Type 0} (d : Db) (o : Outcome A) {a : A} {w' : World}
    → commit d o ≡ done a w'
    → o ≡ done a w'
commit-eq-done d (done a w) h = h
commit-eq-done d (fail e w) h = cc
