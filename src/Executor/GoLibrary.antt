-- ===== src/Executor/GoLibrary.antt =====
-- What the executors of site/server take from Go's library: character classes, case and trimming,
-- regular expressions, MD5, random numbers. The model is over any such operations.
use Prim.Native.Char.{Char}
use swarm_compute.Base.{ℕ, String, List, Bool, Error, ◌⊎◌}

pub record Runtime (N : Type 0) : Type 0 where
  pub is_letter : Char → Bool  -- unicode.IsLetter
  pub is_digit : Char → Bool  -- unicode.IsDigit
  pub to_lower : String → String  -- strings.ToLower
  pub trim_space : String → String  -- strings.TrimSpace
  pub compile : String → Error ⊎ (String → Bool)  -- regexp.Compile, then re.MatchString
  pub md5_hex : List ℕ → String  -- hex.EncodeToString of md5.Sum
  pub string_of : List ℕ → String  -- string(buf)
  pub draw : ℕ → N  -- the values of rng.Float64(), in order
