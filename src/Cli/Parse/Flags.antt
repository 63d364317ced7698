-- ===== src/Cli/Parse/Flags.antt =====
-- What the parser makes of the arguments.
use Prim.Native.String.{String}
use text.Mathlib.Text.{◌==◌}
use mathlib.Core.Bool.{false≢true}
use framework_system.Base.{
  List, [], ◌∷◌, ◌++◌, none, some, Bool, true, false, All, All-append, map, drop,
}
use framework_system.Base.{◌≡◌, refl, ◌∙◌, sym, arith}
use framework_system.Cli.Options.{Cli, portio}
use framework_system.Cli.Parse.{
  State, first_match, or_keep, arms, step, loop, finish, start, parse, verbosity_arms, flag_arms,
  value_arms, late_flag_arms, file_arms, platform_arms, device_arms,
}

absurd_Bool : {b : Bool} {A : Type 0} → b ≡ false → b ≡ true → A
absurd_Bool p q = absurd (false≢true (sym p ∙ q))

-- A property of the state that every arm of a chain keeps when its test holds.
abbrev Keeps : (State → Type 0) → List (Bool × State) → Type 0
Keeps P = All (λ arm. arm.0 ≡ true → P arm.1)

module _ (P : State → Type 0) (s : State) where
  first_match-Keeps :
      (arms : List (Bool × State)) → Keeps P arms → P s → P (or_keep (first_match arms) s)
  unfolding first_match
  first_match-Keeps [] k h = h
  first_match-Keeps ((true, t) ∷ arms) k h = k.0 refl
  first_match-Keeps ((false, t) ∷ arms) k h = first_match-Keeps arms k.1 h

-- A property that every round keeps, for the arguments that are left, holds at the end.
loop-inv :
    (P : State → Type 0) (Q : String → Type 0) (args : List String)
    → ((arg : String) (rest : List String) (s : State) → Q arg → P s → P (step args arg rest s))
    → (todo : List String) (s : State) → All Q todo
    → P s
    → P (loop args todo s)
unfolding loop
loop-inv P Q args keep [] s q h = h
loop-inv P Q args keep (arg ∷ rest) s q h =
    loop-inv P Q args keep rest _ q.1 (keep arg rest s q.0 h)

-- A property that one argument brings about, and that the arguments behind it keep.
loop-reaches :
    (P : State → Type 0) (Q : String → Type 0) (args : List String) (at : String)
    (post : List String)
    → ((s : State) → P (step args at post s))
    → ((arg : String) (rest : List String) (s : State) → Q arg → P s → P (step args arg rest s))
    → All Q post
    → (pre : List String) (s : State) → P (loop args (pre ++ (at ∷ post)) s)
unfolding loop
loop-reaches P Q args at post hit keep q [] s = loop-inv P Q args keep post _ q (hit s)
loop-reaches P Q args at post hit keep q (arg ∷ pre) s =
    loop-reaches P Q args at post hit keep q pre (step args arg (pre ++ (at ∷ post)) s)

abbrev Any : String → Type 0
Any arg = Unit

All-Any : (args : List String) → All Any args
All-Any [] = tt
All-Any (arg ∷ args) = (tt, All-Any args)

-- Arms that all lead to the same proposition keep it. The lists are given by their tests.
constantly : {X : Type 0} (tests : List Bool) → X → All (λ b. b ≡ true → X) tests
constantly [] x = tt
constantly (b ∷ bs) x = (λ _. x, constantly bs x)

abbrev tests : List (Bool × State) → List Bool
tests = map (λ arm. arm.0)

-- A property that every group of options keeps is kept by a round.
module _ (P : State → Type 0) (args : List String) (arg : String) (rest : List String)
    (s : State) where
  step-Keeps :
      Keeps P (verbosity_arms arg s)
      → Keeps P (flag_arms arg s)
      → Keeps P (value_arms arg rest s)
      → Keeps P (late_flag_arms arg s)
      → Keeps P (file_arms arg rest s)
      → Keeps P (platform_arms args arg rest s)
      → Keeps P (device_arms arg rest s)
      → P s
      → P (step args arg rest s)
  unfolding step arms
  step-Keeps k1 k2 k3 k4 k5 k6 k7 h =
      let from6 = platform_arms args arg rest s ++ device_arms arg rest s in
      let from5 = file_arms arg rest s ++ from6 in
      let from4 = late_flag_arms arg s ++ from5 in
      let from3 = value_arms arg rest s ++ from4 in
      let from2 = flag_arms arg s ++ from3 in
      let all6 = join (platform_arms args arg rest s) (device_arms arg rest s) k6 k7 in
      let all5 = join (file_arms arg rest s) from6 k5 all6 in
      let all4 = join (late_flag_arms arg s) from5 k4 all5 in
      let all3 = join (value_arms arg rest s) from4 k3 all4 in
      let all2 = join (flag_arms arg s) from3 k2 all3 in
      first_match-Keeps P s (arms args arg rest s) (join (verbosity_arms arg s) from2 k1 all2) h
    where
      join : (xs ys : List (Bool × State)) → Keeps P xs → Keeps P ys → Keeps P (xs ++ ys)
      join = All-append (λ arm. arm.0 ≡ true → P arm.1)

-- The options that this parser knows nothing of keep the values of its start.
abbrev IsFixed : State → Type 0
IsFixed t =
    (t.cli.driver ≡ some portio)
    × (t.cli.dp_hdmi_update ≡ none)
    × (t.cli.audio_card_info ≡ false)
    × (t.cli.dp_hdmi_info ≡ false)

step-IsFixed :
    (args : List String) (arg : String) (rest : List String) (s : State)
    → IsFixed s
    → IsFixed (step args arg rest s)
unfolding verbosity_arms flag_arms value_arms late_flag_arms file_arms platform_arms device_arms
step-IsFixed args arg rest s h =
    step-Keeps IsFixed args arg rest s (constantly (tests (verbosity_arms arg s)) h)
      (constantly (tests (flag_arms arg s)) h) (constantly (tests (value_arms arg rest s)) h)
      (constantly (tests (late_flag_arms arg s)) h) (constantly (tests (file_arms arg rest s)) h)
      (constantly (tests (platform_arms args arg rest s)) h)
      (constantly (tests (device_arms arg rest s)) h) h

-- The help was asked for.
abbrev Helps : State → Type 0
Helps t = t.cli.help ≡ true

step-Helps :
    (args : List String) (arg : String) (rest : List String) (s : State)
    → Helps s
    → Helps (step args arg rest s)
unfolding verbosity_arms flag_arms value_arms late_flag_arms file_arms platform_arms device_arms
step-Helps args arg rest s h =
    step-Keeps Helps args arg rest s (constantly (tests (verbosity_arms arg s)) h)
      (constantly (tests (flag_arms arg s)) h) (constantly (tests (value_arms arg rest s)) h)
      (λ _. h, (λ _. refl, (λ _. h, (λ _. h, tt)))) (constantly (tests (file_arms arg rest s)) h)
      (constantly (tests (platform_arms args arg rest s)) h)
      (constantly (tests (device_arms arg rest s)) h) h

-- The last file named for a capsule.
abbrev Names : String → State → Type 0
Names v t = t.cli.capsule ≡ some v

abbrev pub NotCapsule : String → Type 0
NotCapsule arg = (arg == "--capsule") ≡ false

step-Names :
    (v : String) (args : List String) (arg : String) (rest : List String) (s : State)
    → NotCapsule arg
    → Names v s
    → Names v (step args arg rest s)
unfolding verbosity_arms flag_arms value_arms late_flag_arms file_arms platform_arms device_arms
step-Names v args arg rest s other h =
    step-Keeps (Names v) args arg rest s (constantly (tests (verbosity_arms arg s)) h)
      (constantly (tests (flag_arms arg s)) h) (constantly (tests (value_arms arg rest s)) h)
      (constantly (tests (late_flag_arms arg s)) h)
      (
        λ _. h,
        (λ _. h, (λ e. absurd_Bool other e, constantly (drop 3 (tests (file_arms arg rest s))) h)),
      )
      (constantly (tests (platform_arms args arg rest s)) h)
      (constantly (tests (device_arms arg rest s)) h) h

finish-Cli :
    (args : List String) (cli : Cli)
    → ((finish args cli).capsule ≡ cli.capsule)
      × ((finish args cli).driver ≡ cli.driver)
      × ((finish args cli).dp_hdmi_update ≡ cli.dp_hdmi_update)
      × ((finish args cli).audio_card_info ≡ cli.audio_card_info)
      × ((finish args cli).dp_hdmi_info ≡ cli.dp_hdmi_info)
unfolding finish
finish-Cli args cli = ground arith

finish-help : (args : List String) (cli : Cli) → cli.help ≡ true → (finish args cli).help ≡ true
unfolding finish
finish-help args cli h = ground arith

help-hits : (args post : List String) (s : State) → Helps (step args "--help" post s)
unfolding step first_match arms
help-hits args post s = refl

capsule-hits :
    (args : List String) (v : String) (post : List String) (s : State)
    → Names v (step args "--capsule" (v ∷ post) s)
unfolding step first_match arms
capsule-hits args v post s = refl

-- The driver is the port I/O driver, and the options for expansion cards are unset, whatever the
-- arguments are.
parse-driver :
    (args : List String)
    → ((parse args).driver ≡ some portio)
      × ((parse args).dp_hdmi_update ≡ none)
      × ((parse args).audio_card_info ≡ false)
      × ((parse args).dp_hdmi_info ≡ false)
unfolding parse
parse-driver args =
    let kept =
      loop-inv IsFixed Any args (λ arg rest s q. step-IsFixed args arg rest s) args (start args)
        (All-Any args) (unfold start in (refl, refl, refl, refl)) in
    let same = finish-Cli args (loop args args (start args)).cli in
    (same.1 ∙ kept.0, same.2 ∙ kept.1, same.3 ∙ kept.2, same.4 ∙ kept.3)

-- `--help` anywhere among the arguments asks for the help.
parse-help : (pre post : List String) → (parse (pre ++ ("--help" ∷ post))).help ≡ true
unfolding parse
parse-help pre post =
    let args = pre ++ ("--help" ∷ post) in
    finish-help args _ (
      loop-reaches Helps Any args "--help" post (help-hits args post)
        (λ arg rest s q. step-Helps args arg rest s) (All-Any post) pre (start args))

-- The value behind the last `--capsule` is the file to read, whatever stands in front of it: neither
-- the value nor an argument behind it is `--capsule` again.
pub parse-capsule :
    (pre : List String) (v : String) (post : List String)
    → All NotCapsule (v ∷ post)
    → (parse (pre ++ ("--capsule" ∷ v ∷ post))).capsule ≡ some v
unfolding parse
parse-capsule pre v post h =
    let args = pre ++ ("--capsule" ∷ v ∷ post) in
    (finish-Cli args _).0
    ∙ loop-reaches (Names v) NotCapsule args "--capsule" (v ∷ post) (capsule-hits args v post)
        (step-Names v args) h pre (start args)
