-- ===== src/Js/Effects/Keeps.antt =====
-- Statements and a reflexive and transitive relation between the state before and after.
use block_chain.Common.{◌≡◌, refl}
use block_chain.Js.{Error, Result, ok, thrown}
use block_chain.Js.Effects.{Run, continue, ◌>>=◌, lift, pure, modify, handle, try_catch}

pub record IsPreorder {S : Type 0} (R : S → S → Type 0) : Type 0 where
  pub refl_R : (s : S) → R s s
  pub trans_R : (s t u : S) → R s t → R t u → R s u

-- An invariant, as such a relation.
abbrev pub Preserves : {S : Type 0} → (S → Type 0) → S → S → Type 0
Preserves P s t = P s → P t

pub Preserves-IsPreorder : {S : Type 0} (P : S → Type 0) → IsPreorder (Preserves P)
Preserves-IsPreorder P = record { refl_R = λ s h. h; trans_R = λ s t u f g h. g (f h) }

pub record Keeps {S A : Type 0} (R : S → S → Type 0) (m : Run S A) : Type 0 where
  pub at : (s : S) → R s (m s).1

module _ {S : Type 0} {R : S → S → Type 0} (order : IsPreorder R) where
  continue-keeps :
      {A B : Type 0} (r : Result A) (f : A → Run S B) (s t : S)
      → R s t
      → ((a : A) → Keeps R (f a))
      → R s (continue r f t).1
  continue-keeps (ok a) f s t h k = order.trans_R s t _ h ((k a).at t)
  continue-keeps (thrown e) f s t h k = h

  pub Keeps-bind :
      {A B : Type 0} {m : Run S A} {f : A → Run S B}
      → Keeps R m
      → ((a : A) → Keeps R (f a))
      → Keeps R (m >>= f)
  unfolding ◌>>=◌
  Keeps-bind {f} h k = record { at = λ s. continue-keeps _ f s _ (h.at s) k }

  pub Keeps-lift : {A : Type 0} (r : Result A) → Keeps R (lift r)
  unfolding lift
  Keeps-lift r = record { at = order.refl_R }

  pub Keeps-pure : {A : Type 0} (a : A) → Keeps R (pure a)
  unfolding pure
  Keeps-pure a = record { at = order.refl_R }

  pub Keeps-modify : {g : S → S} → ((s : S) → R s (g s)) → Keeps R (modify g)
  unfolding modify
  Keeps-modify h = record { at = h }

  -- A call that may throw, and then the rest.
  pub Keeps-lift-bind :
      {A B : Type 0} (r : Result A) {f : A → Run S B}
      → ((a : A) → Keeps R (f a))
      → Keeps R (lift r >>= f)
  Keeps-lift-bind r k = Keeps-bind (Keeps-lift r) k

  pub Keeps-modify-bind :
      {B : Type 0} {g : S → S} {m : Run S B}
      → ((s : S) → R s (g s))
      → Keeps R m
      → Keeps R (modify g >>= λ _. m)
  Keeps-modify-bind h k = Keeps-bind (Keeps-modify h) (λ _. k)

  -- The same, where the rest depends on what the call came to.
  pub Keeps-lift-known :
      {A B : Type 0} (r : Result A) {f : A → Run S B}
      → ((a : A) → r ≡ ok a → Keeps R (f a))
      → Keeps R (lift r >>= f)
  unfolding ◌>>=◌ lift
  Keeps-lift-known (ok a) k = record { at = (k a refl).at }
  Keeps-lift-known (thrown e) k = record { at = order.refl_R }

  handle-keeps :
      {A : Type 0} (r : Result A) (on_error : Error → S → S) (s t : S)
      → R s t
      → ((e : Error) (u : S) → R u (on_error e u))
      → R s (handle r on_error t)
  handle-keeps (ok a) on_error s t h k = h
  handle-keeps (thrown e) on_error s t h k = order.trans_R s t _ h (k e t)

  pub try_catch-keeps :
      {A : Type 0} {body : Run S A} {on_error : Error → S → S}
      → Keeps R body
      → ((e : Error) (s : S) → R s (on_error e s))
      → (s : S) → R s (try_catch body on_error s)
  unfolding try_catch
  try_catch-keeps {on_error} h k s = handle-keeps _ on_error s _ (h.at s) k
