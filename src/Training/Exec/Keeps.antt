-- ===== src/Training/Exec/Keeps.antt =====
-- What a method keeps, whether it returns or raises, and what a method that returned has done.
use py_rl_trainer.Prelude.{◌≡◌, refl, Bool, true, false, Result, ok, err, if◌then◌else◌}
use py_rl_trainer.Training.Exec.{Exec, pure, raise, lift, get, modify, update, ensure, ◌>>=◌, when}

pub record Keeps {E S A : Type 0} (P : S → Type 0) (m : Exec E S A) : Type 0 where
  pub at : (s : S) → P s → P (m s).1

module _ {E S : Type 0} {P : S → Type 0} where
  pub Keeps-pure : {A : Type 0} (a : A) → Keeps P (pure {E = E} a)
  unfolding pure
  Keeps-pure a = record { at = λ s h. h }

  pub Keeps-raise : {A : Type 0} (e : E) → Keeps P (raise {A = A} e)
  unfolding raise
  Keeps-raise e = record { at = λ s h. h }

  pub Keeps-lift : {A : Type 0} (r : Result E A) → Keeps P (lift r)
  unfolding lift
  Keeps-lift r = record { at = λ s h. h }

  pub Keeps-get : Keeps P (get {E = E})
  unfolding get
  Keeps-get = record { at = λ s h. h }

  pub Keeps-modify : (f : S → S) → ((s : S) → P s → P (f s)) → Keeps P (modify {E = E} f)
  unfolding modify
  Keeps-modify f k = record { at = k }

  Keeps-updated :
      (r : Result E S) (s : S) → P s → ((t : S) → r ≡ ok t → P t) → P ((update (λ _. r) s).1)
  unfolding update
  Keeps-updated (ok t) s p k = k t refl
  Keeps-updated (err e) s p k = p

  pub Keeps-update :
      (f : S → Result E S) → ((s t : S) → P s → f s ≡ ok t → P t) → Keeps P (update f)
  unfolding update
  Keeps-update f k = record { at = λ s p. Keeps-updated (f s) s p (λ t e. k s t p e) }

  pub Keeps-ensure : (b : Bool) (e : E) → Keeps P (ensure b e)
  unfolding ensure
  Keeps-ensure true e = record { at = λ s h. h }
  Keeps-ensure false e = record { at = λ s h. h }

  Keeps-proceed :
      {A B : Type 0} (r : Result E A) (f : A → Exec E S B) (s : S)
      → ((a : A) → Keeps P (f a))
      → P s
      → P ((lift r >>= f) s).1
  unfolding ◌>>=◌
  Keeps-proceed (ok a) f s k p = (k a).at s p
  Keeps-proceed (err e) f s k p = p

  pub Keeps-bind :
      {A B : Type 0} {m : Exec E S A} {f : A → Exec E S B}
      → Keeps P m
      → ((a : A) → Keeps P (f a))
      → Keeps P (m >>= f)
  unfolding ◌>>=◌
  Keeps-bind {m = m} {f = f} h k = record {
    at = λ s p. Keeps-proceed (m s).0 f (m s).1 k (h.at s p);
  }

  pub Keeps-if :
      {A : Type 0} (b : Bool) {m n : Exec E S A}
      → Keeps P m
      → Keeps P n
      → Keeps P (if b then m else n)
  Keeps-if true h k = h
  Keeps-if false h k = k

  pub Keeps-when : (b : Bool) {m : Exec E S (Unit {0})} → Keeps P m → Keeps P (when b m)
  Keeps-when true h = h
  Keeps-when false h = Keeps-pure tt

-- from a state of `P` the method ends in one of `Q`
pub record Leads {E S A : Type 0} (P Q : S → Type 0) (m : Exec E S A) : Type 0 where
  pub at : (s : S) → P s → Q (m s).1

module _ {E S : Type 0} {P Q : S → Type 0} (weakens : (s : S) → P s → Q s) where
  pub Leads-Keeps : {A : Type 0} {m : Exec E S A} → Keeps P m → Leads P Q m
  Leads-Keeps {m = m} k = record { at = λ s p. weakens (m s).1 (k.at s p) }

  Leads-proceed :
      {A B : Type 0} (r : Result E A) (f : A → Exec E S B) (s : S)
      → ((a : A) → Leads P Q (f a))
      → P s
      → Q ((lift r >>= f) s).1
  unfolding ◌>>=◌
  Leads-proceed (ok a) f s k p = (k a).at s p
  Leads-proceed (err e) f s k p = weakens s p

  pub Leads-bind :
      {A B : Type 0} {m : Exec E S A} {f : A → Exec E S B}
      → Keeps P m
      → ((a : A) → Leads P Q (f a))
      → Leads P Q (m >>= f)
  unfolding ◌>>=◌
  Leads-bind {m = m} {f = f} h k = record {
    at = λ s p. Leads-proceed (m s).0 f (m s).1 k (h.at s p);
  }

  pub Leads-when : (b : Bool) {m : Exec E S (Unit {0})} → Leads P Q m → Leads P Q (when b m)
  Leads-when true h = h
  Leads-when false h = Leads-Keeps (Keeps-pure tt)

module _ {E S : Type 0} {P Q : S → Type 0} where
  Keeps-entered :
      {B : Type 0} (r : Result E S) (k : Exec E S B) (s : S)
      → Q s
      → ((t : S) → r ≡ ok t → P t)
      → Leads P Q k
      → Q ((update (λ _. r) >>= λ _. k) s).1
  unfolding ◌>>=◌ update
  Keeps-entered (ok t) k s q enters leads = leads.at t (enters t refl)
  Keeps-entered (err e) k s q enters leads = q

  -- a method whose first step leads from `Q` to `P`, or raises
  pub Keeps-enter :
      {B : Type 0} (f : S → Result E S) {k : Exec E S B}
      → ((s t : S) → Q s → f s ≡ ok t → P t)
      → Leads P Q k
      → Keeps Q (update f >>= λ _. k)
  unfolding ◌>>=◌ update
  Keeps-enter f {k = k} enters leads = record {
    at = λ s q. Keeps-entered (f s) k s q (λ t e. enters s t q e) leads;
  }

pub ruleset keeping =
    (Keeps-pure, Keeps-raise, Keeps-lift, Keeps-get, Keeps-ensure, Keeps-bind, Keeps-if, Keeps-when)
