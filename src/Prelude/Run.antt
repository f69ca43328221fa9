-- ===== src/Prelude/Run.antt =====
-- Code that changes a state and may fail; the state that a failed call leaves is kept.
use mathlib.Core.Path.{◌≡◌, refl, fun_ext}
use fuse_backend_rs.Prelude.Outcome.{Outcome, ok, err, panic}

abbrev pub Run : Type 0 → Type 0 → Type 0 → Type 0
Run S E A = S → S × Outcome E A

module _ {S E : Type 0} where
  abbrev pub result : {A : Type 0} → Outcome E A → Run S E A
  result o s = (s, o)

  abbrev pub get_state : Run S E S
  get_state s = (s, ok s)

  abbrev pub set_state : S → Run S E (Unit {0})
  set_state s' s = (s', ok tt)

  abbrev pub goes_on : {A B : Type 0} → S × Outcome E A → (A → Run S E B) → S × Outcome E B
  goes_on (s, ok a) next = next a s
  goes_on (s, err e) next = (s, err e)
  goes_on (s, panic) next = (s, panic)

  infixl 5 ◌>>=◌
  abbrev pub ◌>>=◌ : {A B : Type 0} → Run S E A → (A → Run S E B) → Run S E B
  (run >>= next) s = goes_on (run s) next

  infixl 5 ◌>>◌
  abbrev pub ◌>>◌ : {A B : Type 0} → Run S E A → Run S E B → Run S E B
  (run >> next) s = goes_on (run s) (λ a. next)

  goes_on-goes_on :
      {A B C : Type 0} (x : S × Outcome E A) (f : A → Run S E B) (k : B → Run S E C)
      → goes_on (goes_on x f) k ≡ goes_on x (λ a. f a >>= k)
  goes_on-goes_on (s, ok a) f k = refl
  goes_on-goes_on (s, err e) f k = refl
  goes_on-goes_on (s, panic) f k = refl

  pub >>=_assoc :
      {A B C : Type 0} (m : Run S E A) (f : A → Run S E B) (k : B → Run S E C)
      → ((m >>= f) >>= k) ≡ (m >>= (λ a. f a >>= k))
  >>=_assoc m f k = fun_ext (λ s. goes_on-goes_on (m s) f k)

abbrev failing : {S E F A : Type 0} → (E → F) → S × Outcome E A → S × Outcome F A
failing wrap (s, ok a) = (s, ok a)
failing wrap (s, err e) = (s, err (wrap e))
failing wrap (s, panic) = (s, panic)

-- `map_err`
abbrev pub map_err : {S E F A : Type 0} → (E → F) → Run S E A → Run S F A
map_err wrap run s = failing wrap (run s)
