-- ===== src/CommandLine/Tests.antt =====
-- Source/Parser/CommandLineParser.cpp at the default options.
use fptl.Prelude.{◌*◌, ◌^◌, ◌<◌, ◌≡◌, ◌⊎◌, ◌↔◌, refl, true, false, [], ◌∷◌, arith}
use mathlib.Core.List.{Memᴰ}
use fptl.Prelude.Int.{pos, negsuc}
use fptl.Ops.Sample.{whole_numbers}
use fptl.CommandLine.{
  Options, Complaint, about_cores, about_young, at_most_zero, check_option, bad_ratio,
  options_verification, get_gc_config,
}
use fptl.CommandLine.Settings.{
  fails, IsWrong, options_verification_lem, get_gc_config_lem, wraps_lem,
}

abbrev defaults : Options
defaults = record {
  num_cores = pos 1;
  disable_gc = false;
  young_gen = pos 20;
  old_gen = pos 100;
  old_gen_ratio = 1;
}

abbrev no_cores : Options
no_cores = record {
  num_cores = pos 0;
  disable_gc = false;
  young_gen = negsuc 4;
  old_gen = pos 100;
  old_gen_ratio = 1;
}

two_complaints :
    options_verification whole_numbers no_cores ≡ (false, about_cores ∷ about_young ∷ [])
unfolding options_verification check_option at_most_zero bad_ratio
two_complaints = refl

defaults-pass : (options_verification whole_numbers defaults).0 ≡ true
unfolding options_verification check_option at_most_zero bad_ratio
defaults-pass = refl

options_verification_lem_example :
    (((options_verification whole_numbers no_cores).0 ≡ true)
      ↔ ((c : Complaint) → ¬ IsWrong whole_numbers no_cores c))
    × ((c : Complaint)
        → Memᴰ c (options_verification whole_numbers no_cores).1 ↔ IsWrong whole_numbers no_cores c)
options_verification_lem_example = options_verification_lem whole_numbers no_cores

get_gc_config_lem_example :
    ((get_gc_config (λ x. x) defaults).young_gen_size ≡ 20 * 1048576)
    × (0 < (get_gc_config (λ x. x) defaults).young_gen_size)
    × ((get_gc_config (λ x. x) defaults).old_gen_size ≡ 100 * 1048576)
    × (0 < (get_gc_config (λ x. x) defaults).old_gen_size)
    × (((get_gc_config (λ x. x) defaults).old_gen_threshold ≡ 0)
        ⊎ ((get_gc_config (λ x. x) defaults).old_gen_threshold ≡ 100 * 1048576))
get_gc_config_lem_example =
    get_gc_config_lem whole_numbers defaults (λ x. x) 20 100 defaults-pass refl refl (omega arith)
      (omega arith) (omega arith)

-- A young generation of 2 ^ 44 MiB
abbrev huge : Options
huge = record defaults { young_gen = pos (1 * 2 ^ 44) }

wraps_lem_example :
    (fails whole_numbers huge about_young ≡ false)
    × ((get_gc_config (λ x. x) huge).young_gen_size ≡ 0)
wraps_lem_example = wraps_lem whole_numbers huge (λ x. x) 0 refl (omega arith)
