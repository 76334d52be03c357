-- ===== src/Types.antt =====
-- src/types.rs: the exception codes, the result type and the readers of big-endian integers.
-- `fail!` and `error!` with a text are the error `message`; the text itself is not kept.
use ton_labs_types.Base.{Bool, true, false, Option, none, some}

pub data ExceptionCode : Type 0 where
  normal_termination : ExceptionCode
  alternative_termination : ExceptionCode
  stack_underflow : ExceptionCode
  stack_overflow : ExceptionCode
  integer_overflow : ExceptionCode
  range_check_error : ExceptionCode
  invalid_opcode : ExceptionCode
  type_check_error : ExceptionCode
  cell_overflow : ExceptionCode
  cell_underflow : ExceptionCode
  dictionary_error : ExceptionCode
  unknown_error : ExceptionCode
  fatal_error : ExceptionCode
  out_of_gas : ExceptionCode
  illegal_instruction : ExceptionCode
  pruned_cell_access : ExceptionCode

-- `anyhow::Error`, as far as callers tell errors apart.
pub data Error : Type 0 where
  exception : ExceptionCode → Error
  message : Error

-- `Result<T>`, and a panic: an `unwrap`, an `assert!` or an index that fails.
pub data Result {ℓ} (A : Type ℓ) : Type ℓ where
  ok : A → Result A
  err : Error → Result A
  panic : Result A

-- `fail!(ExceptionCode::…)`
abbrev pub fail {ℓ} : {A : Type ℓ} → ExceptionCode → Result A
fail code = err (exception code)

infixl 5 ◌>>=◌
abbrev pub ◌>>=◌ {ℓ κ} : {A : Type ℓ} {B : Type κ} → Result A → (A → Result B) → Result B
ok a >>= f = f a
err e >>= f = err e
panic >>= f = panic

-- `unwrap`, `expect` and an index: `none` and an error are panics.
abbrev pub unwrap {ℓ} : {A : Type ℓ} → Option A → Result A
unwrap (some a) = ok a
unwrap none = panic

abbrev pub unwrap_ok {ℓ} : {A : Type ℓ} → Result A → Result A
unwrap_ok (ok a) = ok a
unwrap_ok (err e) = panic
unwrap_ok panic = panic

-- `Result::ok`; the option of an option tells a panic from an error.
abbrev pub ok_or {ℓ} : {A : Type ℓ} → Option A → Error → Result A
ok_or (some a) e = ok a
ok_or none e = err e

-- `assert!(test)` before `rest`
abbrev pub assert {ℓ} : {A : Type ℓ} → Bool → Result A → Result A
assert true rest = rest
assert false rest = panic
