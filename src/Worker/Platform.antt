-- ===== src/Worker/Platform.antt =====
-- What the worker takes from Go's standard library and the runtime.
use io_stress.Common.{ℕ, String, List, Option}
use io_stress.Common.Int.{ℤ}
use io_stress.Objstore.Stream.{Percents}
use io_stress.Objstore.Retry.{Err}
use io_stress.Objstore.Reader.{ReadErr}

pub record Platform : Type 1 where
  pub percents : Percents
  pub sha256 : List ℕ → List ℕ
  pub md5 : List ℕ → List ℕ
  pub chacha : List ℕ → ℕ → List ℕ  -- the first bytes of math/rand/v2's ChaCha8 stream
  pub show : ℕ → String  -- `%d`
  pub decimal : ℕ → List ℕ  -- `%d`, as bytes
  pub int_text : ℤ → String  -- strconv.FormatInt
  pub parse_int : String → Option ℤ  -- strconv.ParseInt
  pub text : List ℕ → String  -- string(bytes)
  pub codes : String → List ℕ  -- []byte(text)
  pub read_error : ReadErr → Err  -- what errors.As and errors.Is find in an error of a reader
