-- ===== src/Base/Exec.antt =====
-- An `async` handler as a program with `try`, `catch` and `finally`: it changes the state, and
-- returns or throws an error with a text. What was written before a throw stays written. The
-- handler runs to its end with nothing else in between; the server's answers are arguments.
use Prim.Native.String.{String}
use mathlib.Core.Bool.{Bool}
use sentry_usb.Base.Tests.{if◌then◌else◌}

pub data Outcome {ℓ} (A : Type ℓ) : Type ℓ where
  returned : A → Outcome A
  threw : String → Outcome A

-- What a request comes to: an answer, an error status with the text that is shown for it, or an
-- exception of the request itself.
pub data Answer {ℓ} (A : Type ℓ) : Type ℓ where
  answered : A → Answer A
  refused : String → Answer A
  unreachable : String → Answer A

-- `if (!res.ok) throw new Error(text)` with a fixed text
abbrev pub with_text {ℓ} : {A : Type ℓ} → String → Answer A → Answer A
with_text text (answered a) = answered a
with_text text (refused old) = refused text
with_text text (unreachable e) = unreachable e

pub data Done : Type 0 where
  done : Done

abbrev pub Exec : Type 0 → Type 0 → Type 0
Exec S A = S → Outcome A × S

module _ {S A : Type 0} where
  unfoldable pub pure : A → Exec S A
  pure a s = (returned a, s)

  unfoldable pub throw : String → Exec S A
  throw text s = (threw text, s)

  -- `await fetch(…)`, with `if (!res.ok) throw …`
  unfoldable pub ask : Answer A → Exec S A
  ask (answered a) s = (returned a, s)
  ask (refused text) s = (threw text, s)
  ask (unreachable text) s = (threw text, s)

  -- an `await` of something that may throw
  unfoldable pub lift : Outcome A → Exec S A
  lift r s = (r, s)

  abbrev pub caught : Outcome A → (String → Exec S A) → Exec S A
  caught (returned a) handler s = (returned a, s)
  caught (threw text) handler s = handler text s

  -- `try { m } catch (e) { handler(e) }`
  unfoldable pub try_catch : Exec S A → (String → Exec S A) → Exec S A
  try_catch m handler s = let r = m s in caught r.0 handler r.1

  -- `try { m } finally { change }`
  unfoldable pub finally_do : Exec S A → (S → S) → Exec S A
  finally_do m change s = let r = m s in (r.0, change r.1)

module _ {S : Type 0} where
  -- calls of state setters
  unfoldable pub modify : (S → S) → Exec S Done
  modify change s = (returned done, change s)

  unfoldable pub when : Bool → Exec S Done → Exec S Done
  when b m s = if b then m s else (returned done, s)

module _ {S A B : Type 0} where
  abbrev pub continue : Outcome A → (A → Exec S B) → Exec S B
  continue (returned a) f s = f a s
  continue (threw text) f s = (threw text, s)

  infixl 10 ◌>>=◌ ◌>>◌
  unfoldable pub ◌>>=◌ : Exec S A → (A → Exec S B) → Exec S B
  ◌>>=◌ m f s = let r = m s in continue r.0 f r.1

  unfoldable pub ◌>>◌ : Exec S A → Exec S B → Exec S B
  ◌>>◌ m n s = let r = m s in continue r.0 (λ a. n) r.1
