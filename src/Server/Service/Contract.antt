-- ===== src/Server/Service/Contract.antt =====
-- What a handler ensures, part by part: a property of its value and the world after it, another of the
-- world after an error, and that it does not panic.
use securetunnel.Base.{Bool, true, false, ◌≡◌, refl, Option, none, some, ℕ}
use securetunnel.Server.World.{
  World, Reply, Reason, go, refuse, panic, M, bind, guard, or_refuse, commit, generated,
}
use securetunnel.Server.Store.{MemoryStore}
use securetunnel.Server.Store.Table.{Result, ok, err}

abbrev pub Ensures :
    {A : Type 0} → (A → World → Type 0) → (World → Type 0) → Reply A × World → Type 0
Ensures Q E (go a, w) = Q a w
Ensures Q E (refuse code why, w) = E w
Ensures Q E (panic, w) = ⊥

pub Ensures-bind :
    {A B : Type 0} (Q : A → World → Type 0) (R : B → World → Type 0) (E : World → Type 0)
    (r : Reply A × World) (f : A → M B)
    → Ensures Q E r
    → ((a : A) (w : World) → Q a w → Ensures R E (f a w))
    → Ensures R E (bind r.0 r.1 f)
Ensures-bind Q R E (go a, w) f h k = k a w h
Ensures-bind Q R E (refuse code why, w) f h k = h
Ensures-bind Q R E (panic, w) f h k = absurd h

-- One rule for each way in which a handler's next part may end it.
module _ {B : Type 0} (R : B → World → Type 0) (E : World → Type 0) (code : ℕ) (why : Reason)
    (w : World) (h : E w) where
  pub Ensures-guard :
      (b : Bool) (f : Unit {0} → M B)
      → (b ≡ true → Ensures R E (f tt w))
      → Ensures R E (bind (guard b code why w).0 (guard b code why w).1 f)
  Ensures-guard true f k = k refl
  Ensures-guard false f k = h

  pub Ensures-commit :
      (r : Result MemoryStore) (f : Unit {0} → M B)
      → ((s : MemoryStore) → r ≡ ok s → Ensures R E (f tt (record w { store = s })))
      → Ensures R E (bind (commit r code why w).0 (commit r code why w).1 f)
  Ensures-commit (ok s) f k = k s refl
  Ensures-commit (err x) f k = h

  module _ {A : Type 0} where
    pub Ensures-or_refuse :
        (o : Option A) (f : A → M B)
        → ((a : A) → o ≡ some a → Ensures R E (f a w))
        → Ensures R E (bind (or_refuse o code why w).0 (or_refuse o code why w).1 f)
    Ensures-or_refuse none f k = h
    Ensures-or_refuse (some a) f k = k a refl

    pub Ensures-generated :
        (o : Option (A × ℕ)) (f : A → M B)
        → ((a : A) (n : ℕ) → o ≡ some (a, n) → Ensures R E (f a (record w { draw = n })))
        → Ensures R E (bind (generated o code why w).0 (generated o code why w).1 f)
    Ensures-generated none f k = h
    Ensures-generated (some (a, n)) f k = k a n refl
