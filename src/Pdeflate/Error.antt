-- ===== src/Pdeflate/Error.antt =====
-- `PDeflateError` of cozip_pdeflate/src/pdeflate/mod.rs.
use cozip.Base.{String}
use cozip.Base.Results

-- `panicked` is no `PDeflateError`: it stands for a run that Rust stops, such as an index out of
-- bounds. `stuck` is one that does not come to its end.
pub data Error : Type 0 where
  invalid_options : String → Error
  invalid_stream : String → Error
  io : String → Error
  numeric_overflow : Error
  gpu : String → Error
  panicked : Error
  stuck : Error

abbrev pub Result {ℓ} : Type ℓ → Type ℓ
Result A = Results.Result Error A
