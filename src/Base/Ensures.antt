-- ===== src/Base/Ensures.antt =====
-- What holds of the state when a handler has returned or thrown, one rule for each way to build
-- one.
use Prim.Native.String.{String}
use mathlib.Core.Bool.{Bool, true, false}
use sentry_usb.Base.Tests.{if◌then◌else◌}
use sentry_usb.Base.Exec.{
  Outcome, returned, threw, Answer, answered, refused, unreachable, Done, Exec, pure, throw, ask,
  lift, try_catch, finally_do, modify, when, ◌>>=◌, ◌>>◌, caught, continue,
}

module _ {S A : Type 0} where
  -- `Q` after a return, `E` after a throw
  abbrev pub IsAfter : (S → Type 0) → (S → Type 0) → Outcome A × S → Type 0
  IsAfter Q E (returned a, s) = Q s
  IsAfter Q E (threw text, s) = E s

  pub record Ensures (P : S → Type 0) (m : Exec S A) (Q E : S → Type 0) : Type 0 where
    pub at : (s : S) → P s → IsAfter Q E (m s)

module _ {S A : Type 0} where
  IsAfter-caught :
      (Q R E : S → Type 0) (r : Outcome A × S) (handler : String → Exec S A)
      → IsAfter Q R r
      → ((text : String) → Ensures R (handler text) Q E)
      → IsAfter Q E (caught r.0 handler r.1)
  IsAfter-caught Q R E (returned a, s) handler h k = h
  IsAfter-caught Q R E (threw text, s) handler h k = (k text).at s h

  IsAfter-changed :
      (Q R Q' E : S → Type 0) (r : Outcome A × S) (change : S → S)
      → IsAfter Q R r
      → ((s : S) → Q s → Q' (change s))
      → ((s : S) → R s → E (change s))
      → IsAfter {A = A} Q' E (r.0, change r.1)
  IsAfter-changed Q R Q' E (returned a, s) change h q e = q s h
  IsAfter-changed Q R Q' E (threw text, s) change h q e = e s h

module _ {S A B : Type 0} where
  IsAfter-continue :
      (Q R E : S → Type 0) (r : Outcome A × S) (f : A → Exec S B)
      → IsAfter R E r
      → ((a : A) → Ensures R (f a) Q E)
      → IsAfter Q E (continue r.0 f r.1)
  IsAfter-continue Q R E (returned a, s) f h k = (k a).at s h
  IsAfter-continue Q R E (threw text, s) f h k = h

module _ {S A : Type 0} {P Q E : S → Type 0} where
  pub Ensures-pure : (a : A) → ((s : S) → P s → Q s) → Ensures P (pure a) Q E
  unfolding pure
  Ensures-pure a h = record { at = h }

  pub Ensures-throw : (text : String) → ((s : S) → P s → E s) → Ensures P (throw {A = A} text) Q E
  unfolding throw
  Ensures-throw text h = record { at = h }

  pub Ensures-lift :
      (r : Outcome A) → ((s : S) → P s → Q s) → ((s : S) → P s → E s) → Ensures P (lift r) Q E
  unfolding lift
  Ensures-lift (returned a) q e = record { at = q }
  Ensures-lift (threw text) q e = record { at = e }

  pub Ensures-ask :
      (r : Answer A) → ((s : S) → P s → Q s) → ((s : S) → P s → E s) → Ensures P (ask r) Q E
  unfolding ask
  Ensures-ask (answered a) q e = record { at = q }
  Ensures-ask (refused text) q e = record { at = e }
  Ensures-ask (unreachable text) q e = record { at = e }

  pub Ensures-try_catch :
      {R : S → Type 0} (m : Exec S A) (handler : String → Exec S A)
      → Ensures P m Q R
      → ((text : String) → Ensures R (handler text) Q E)
      → Ensures P (try_catch m handler) Q E
  unfolding try_catch
  Ensures-try_catch {R = R} m handler h k = record {
    at = λ s p. IsAfter-caught Q R E (m s) handler (h.at s p) k;
  }

  pub Ensures-finally_do :
      {Q' E' : S → Type 0} (m : Exec S A) (change : S → S)
      → Ensures P m Q' E'
      → ((s : S) → Q' s → Q (change s))
      → ((s : S) → E' s → E (change s))
      → Ensures P (finally_do m change) Q E
  unfolding finally_do
  Ensures-finally_do {Q' = Q'} {E' = E'} m change h q e = record {
    at = λ s p. IsAfter-changed Q' E' Q E (m s) change (h.at s p) q e;
  }

module _ {S : Type 0} {P Q E : S → Type 0} where
  pub Ensures-modify :
      (change : S → S) → ((s : S) → P s → Q (change s)) → Ensures P (modify change) Q E
  unfolding modify
  Ensures-modify change h = record { at = h }

  pub Ensures-when :
      (b : Bool) (m : Exec S Done)
      → Ensures P m Q E
      → ((s : S) → P s → Q s)
      → Ensures P (when b m) Q E
  unfolding when
  Ensures-when true m h k = record { at = h.at }
  Ensures-when false m h k = record { at = k }

module _ {S A : Type 0} {P Q E : S → Type 0} where
  pub Ensures-if :
      (b : Bool) (m n : Exec S A)
      → Ensures P m Q E
      → Ensures P n Q E
      → Ensures P (if b then m else n) Q E
  Ensures-if true m n h k = h
  Ensures-if false m n h k = k

module _ {S A B : Type 0} {P Q R E : S → Type 0} where
  pub Ensures-bind :
      (m : Exec S A) (f : A → Exec S B)
      → Ensures P m R E
      → ((a : A) → Ensures R (f a) Q E)
      → Ensures P (m >>= f) Q E
  unfolding ◌>>=◌
  Ensures-bind m f h k = record { at = λ s p. IsAfter-continue Q R E (m s) f (h.at s p) k }

  pub Ensures-then :
      (m : Exec S A) (n : Exec S B) → Ensures P m R E → Ensures R n Q E → Ensures P (m >> n) Q E
  unfolding ◌>>◌
  Ensures-then m n h k = record {
    at = λ s p. IsAfter-continue Q R E (m s) (λ a. n) (h.at s p) (λ a. k);
  }

module _ {S A : Type 0} where
  -- The same after a return and after a throw.
  pub IsAfter-both : (Q : S → Type 0) (r : Outcome A × S) → IsAfter Q Q r → Q r.1
  IsAfter-both Q (returned a, s) h = h
  IsAfter-both Q (threw text, s) h = h

  IsAfter-weaken :
      (Q Q' E : S → Type 0) (r : Outcome A × S)
      → ((s : S) → Q s → Q' s)
      → IsAfter Q E r
      → IsAfter Q' E r
  IsAfter-weaken Q Q' E (returned a, s) w h = w s h
  IsAfter-weaken Q Q' E (threw text, s) w h = h

  pub Ensures-weaken :
      {P Q Q' E : S → Type 0} (m : Exec S A)
      → Ensures P m Q E
      → ((s : S) → Q s → Q' s)
      → Ensures P m Q' E
  Ensures-weaken {Q = Q} {Q' = Q'} {E = E} m h w = record {
    at = λ s p. IsAfter-weaken Q Q' E (m s) w (h.at s p);
  }
