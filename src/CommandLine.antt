-- ===== src/CommandLine.antt =====
-- Source/Parser/CommandLineParser.cpp, CommandLineParser.h: the test of the options, and the settings
-- of the garbage collector that they give. The options are read by boost::program_options.
pub mod Settings
mod Tests
use fptl.Prelude.{
  ℕ, ◌+◌, ◌-◌, ◌*◌, ◌%◌, ◌^◌, Bool, true, false, not, ◌||◌, List, [], ◌∷◌, ◌++◌, if◌then◌else◌,
}
use fptl.Prelude.Int.{ℤ, pos, negsuc}
use fptl.Ops.{Foreign}
use fptl.Gc.Collector.{GcConfig, threshold}

-- The options of `mVM` that the functions below read
pub record Options : Type 0 where
  pub num_cores : ℤ
  pub disable_gc : Bool
  pub young_gen : ℤ
  pub old_gen : ℤ
  pub old_gen_ratio : ℕ

-- What is said about the options
pub data Complaint : Type 0 where
  about_cores about_young about_old about_ratio : Complaint

-- `as<long long>() <= 0`
unfoldable pub at_most_zero : ℤ → Bool
at_most_zero (pos ℕ.zero) = true
at_most_zero (pos (ℕ.suc n)) = false
at_most_zero (negsuc n) = true

-- One test of `optionsVerification`, on the flag and what was said so far
unfoldable pub check_option : Bool → Complaint → Bool × List Complaint → Bool × List Complaint
check_option true complaint (ok_so_far, said) = (false, said ++ complaint ∷ [])
check_option false complaint state = state

-- `static_cast<size_t>`
unfoldable pub to_size : ℤ → ℕ
to_size (pos n) = n % 2 ^ 64
to_size (negsuc n) = (2 ^ 64 - 1) - n % 2 ^ 64

-- `* 1024 * 1024` in `size_t`
unfoldable pub mebibytes : ℕ → ℕ
mebibytes n = n * 1024 % 2 ^ 64 * 1024 % 2 ^ 64

module _ (cpp : Foreign) where
  -- `ratio <= 0 || ratio > 1`
  unfoldable pub bad_ratio : ℕ → Bool
  bad_ratio x =
      (cpp.is_lt x cpp.zero_double || cpp.is_eq x cpp.zero_double)
      || cpp.is_lt (cpp.from_int (pos 1)) x

  unfoldable pub options_verification : Options → Bool × List Complaint
  unfolding check_option at_most_zero bad_ratio
  options_verification o = check_option (bad_ratio o.old_gen_ratio) about_ratio (
      check_option (at_most_zero o.old_gen) about_old (
        check_option (at_most_zero o.young_gen) about_young
          (check_option (at_most_zero o.num_cores) about_cores (true, []))))

-- `GetCoresNum`
unfoldable pub get_cores_num : Options → ℕ
unfolding to_size
get_cores_num o = to_size o.num_cores

-- `GetGcConfig`; `whole` is the conversion of a double to `size_t`.
unfoldable pub get_gc_config : (ℕ → ℕ) → Options → GcConfig
unfolding to_size mebibytes threshold
get_gc_config whole o =
    let old_size = mebibytes (to_size o.old_gen) in
    record {
      enabled = not o.disable_gc;
      young_gen_size = mebibytes (to_size o.young_gen);
      old_gen_size = old_size;
      old_gen_threshold = threshold old_size (whole o.old_gen_ratio) % 2 ^ 64;
    }
