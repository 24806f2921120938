-- ===== src/Jobs/Arguments.antt =====
-- The command line of extensions/task/scheduler.ts.
use pi_task.Common.{
  String, ◌≡◌, refl, Bool, true, false, Option, none, some, List, [], ◌∷◌, ◌++◌, returns,
}
use pi_task.Jobs.{Mode, once, loop, SchedulerArgs, flag_of, parse_rest, parse_scheduler_args}

abbrev mode_flag : Mode → String
mode_flag once = "--once"
mode_flag loop = "--loop"

abbrev when : Bool → String → List String
when true flag = flag ∷ []
when false flag = []

abbrev project_flag : Option String → List String
project_flag none = []
project_flag (some project) = "--project" ∷ project ∷ []

-- A command line with these settings.
abbrev pub print : SchedulerArgs → List String
print args =
    when args.help "--help"
    ++ project_flag args.project
    ++ when args.dry_run "--dry-run"
    ++ mode_flag args.mode ∷ []

print_fields :
    (mode : Mode) (project : Option String) (dry_run help : Bool)
    → parse_scheduler_args
        (print (record { mode = mode; project = project; dry_run = dry_run; help = help }))
      ≡ returns (record { mode = mode; project = project; dry_run = dry_run; help = help })
unfolding parse_scheduler_args parse_rest flag_of
print_fields once none false false = refl
print_fields once none false true = refl
print_fields once none true false = refl
print_fields once none true true = refl
print_fields once (some p) false false = refl
print_fields once (some p) false true = refl
print_fields once (some p) true false = refl
print_fields once (some p) true true = refl
print_fields loop none false false = refl
print_fields loop none false true = refl
print_fields loop none true false = refl
print_fields loop none true true = refl
print_fields loop (some p) false false = refl
print_fields loop (some p) false true = refl
print_fields loop (some p) true false = refl
print_fields loop (some p) true true = refl

-- Any settings, with any text as the project, are read back from the command line that has them.
pub parse_scheduler_args-print :
    (args : SchedulerArgs) → parse_scheduler_args (print args) ≡ returns args
parse_scheduler_args-print args = print_fields args.mode args.project args.dry_run args.help
