-- ===== src/Js/Effects.antt =====
-- Statements over a state that may throw: what was assigned before a throw stays assigned.
pub mod Keeps
use block_chain.Js.{Error, Result, ok, thrown}

abbrev pub Run : Type 0 → Type 0 → Type 0
Run S A = S → Result A × S

abbrev pub continue : {S A B : Type 0} → Result A → (A → Run S B) → Run S B
continue (ok a) f s = f a s
continue (thrown e) f s = (thrown e, s)

infixl 5 ◌>>=◌ ◌>>◌
unfoldable pub ◌>>=◌ : {S A B : Type 0} → Run S A → (A → Run S B) → Run S B
◌>>=◌ m f s = let (r, s') = m s in continue r f s'

abbrev pub ◌>>◌ : {S A B : Type 0} → Run S A → Run S B → Run S B
m >> n = m >>= λ _. n

unfoldable pub lift : {S A : Type 0} → Result A → Run S A
lift r s = (r, s)

unfoldable pub pure : {S A : Type 0} → A → Run S A
pure a s = (ok a, s)

unfoldable pub modify : {S : Type 0} → (S → S) → Run S (Unit {0})
modify f s = (ok tt, f s)

-- To open this is to open the other statements too.
-- `try { body } catch (e) { handler(e) }`: the state that the statement leaves.
abbrev pub handle : {S A : Type 0} → Result A → (Error → S → S) → S → S
handle (ok a) on_error s = s
handle (thrown e) on_error s = on_error e s

unfoldable pub try_catch : {S A : Type 0} → Run S A → (Error → S → S) → S → S
unfolding ◌>>=◌ lift pure modify
try_catch body on_error s = let (r, s') = body s in handle r on_error s'
