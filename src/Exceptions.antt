-- ===== src/Exceptions.antt =====
-- c9y/exceptions.h and c9y/exceptions.cpp: the handler for exceptions that nobody can catch. A
-- function acts on a state `S` and ends normally or by an exception. A handler is such a function
-- that may also end the process, which `none` stands for.
use c9y.Base.{Option, none, some}

pub data Outcome {ℓ} (S : Type ℓ) : Type ℓ where
  returned threw : S → Outcome S

-- What a handler does to the state; none: the process ends.
abbrev pub Handler {ℓ} : Type ℓ → Type ℓ
Handler S = S → Option (Outcome S)

module _ {ℓ} {S : Type ℓ} where
  -- The handler that is installed at first calls `std::terminate`.
  unfoldable pub default_handler : Handler S
  default_handler s = none

  -- Returns the previous handler, and installs the new one.
  unfoldable pub set_unhandled_exception : Handler S → Handler S → Handler S × Handler S
  set_unhandled_exception handler installed = (installed, handler)

  -- An exception of the handler meets a `noexcept`, and ends the process.
  abbrev pub no_throw : Option (Outcome S) → Option S
  no_throw none = none
  no_throw (some (Outcome.returned s)) = some s
  no_throw (some (Outcome.threw s)) = none

  unfoldable pub unhandled_exception : Handler S → S → Option S
  unhandled_exception handler s = no_throw (handler s)

  -- `try { task(); } catch (...) { unhandled_exception(); }`
  unfoldable pub guarded : Handler S → Outcome S → Option S
  unfolding unhandled_exception
  guarded handler (Outcome.returned s) = some s
  guarded handler (Outcome.threw s) = unhandled_exception handler s
