-- ===== src/Runtime/Cli/Dangling.antt =====
-- main.go of the command: the arguments that make it panic.
use sl_open_bark.Common.{
  String, false, List, [], ◌∷◌, ◌++◌, ◌==◌, string_eq, ◌≡◌, refl, ap, ◌∙◌, ◌↔◌, ◌⊎◌, inl, inr,
  arith, Bool-cases,
}
use sl_open_bark.Common.Result.{Result, ok, err}
use sl_open_bark.Runtime.Spec.{TaskRequest}
use sl_open_bark.Runtime.Cli.{
  ArgsError, out_of_range, start, plain, takes_value, with_value, last_arg, parse_loop, complete,
  parse_args,
}

-- The arguments are read in full, with a value behind each option that wants one, and then such an
-- option stands last.
abbrev pub Dangling : List String → Type 0
Dangling args =
    (before : List String) × (option : String) × (req : TaskRequest) × (args
      ≡ before ++ option ∷ [])
    × (parse_loop before start ≡ ok req)
    × ((option ≡ "--committee") ⊎ (option ≡ "--identity"))

-- An argument that stands alone is read before the others.
parse_loop-plain :
    (a : String) (rest : List String) (req : TaskRequest)
    → takes_value a ≡ false
    → parse_loop (a ∷ rest) req ≡ parse_loop rest (plain a req)
unfolding parse_loop last_arg
parse_loop-plain a [] req h = ground (arith, not_goal a h)
  where
    not_goal : (x : String) → takes_value x ≡ false → (x == "--goal") ≡ false
    not_goal x e = ground arith
parse_loop-plain a (v ∷ rest) req h = rw h refl

last_arg-ok :
    (a : String) (req done : TaskRequest) → last_arg a req ≡ ok done → takes_value a ≡ false
unfolding last_arg
last_arg-ok a req done h = ground arith

-- Arguments that are read in full do not look at those behind them.
parse_loop-append :
    (before rest : List String) (req done : TaskRequest)
    → parse_loop before req ≡ ok done
    → parse_loop (before ++ rest) req ≡ parse_loop rest done
unfolding parse_loop
parse_loop-append [] rest req done h = ap (parse_loop rest) (ground arith)
parse_loop-append (a ∷ []) rest req done h =
    let alone = last_arg-ok a req done h in
    parse_loop-plain a rest req alone
    ∙ ap (parse_loop rest) (ground (arith, parse_loop-plain a [] req alone, h))
parse_loop-append (a ∷ v ∷ before) rest req done h = elim (Bool-cases (takes_value a)) [
  | inl valued ↦
      rw valued (parse_loop-append before rest (with_value a v req) done (rw valued at h))
  | inr alone ↦ rw alone (parse_loop-append (v ∷ before) rest (plain a req) done (rw alone at h))
]

last_arg-out_of_range :
    (a : String) (req : TaskRequest)
    → last_arg a req ≡ err out_of_range
    → (a ≡ "--committee") ⊎ (a ≡ "--identity")
unfolding last_arg takes_value
last_arg-out_of_range a req h = ground arith

out_of_range-last_arg :
    (a : String) (req : TaskRequest)
    → (a ≡ "--committee") ⊎ (a ≡ "--identity")
    → last_arg a req ≡ err out_of_range
unfolding last_arg takes_value string_eq
out_of_range-last_arg a req (inl e) = rw e refl
out_of_range-last_arg a req (inr e) = rw e refl

-- Where the loop runs out of range, from any request.
Stuck : List String → TaskRequest → Type 0
Stuck args req =
    (before : List String) × (option : String) × (done : TaskRequest) × (args
      ≡ before ++ option ∷ [])
    × (parse_loop before req ≡ ok done)
    × ((option ≡ "--committee") ⊎ (option ≡ "--identity"))

parse_loop-Stuck :
    (args : List String) (req : TaskRequest)
    → parse_loop args req ≡ err out_of_range
    → Stuck args req
unfolding parse_loop Stuck
parse_loop-Stuck [] req h = cc
parse_loop-Stuck (a ∷ []) req h = ([], a, req, refl, refl, last_arg-out_of_range a req h)
parse_loop-Stuck (a ∷ v ∷ rest) req h = elim (Bool-cases (takes_value a)) [
  | inl valued ↦
      let (before, option, done, e, p, o) =
        parse_loop-Stuck rest (with_value a v req) (rw valued at h) in
      (a ∷ v ∷ before, option, done, ap (λ l. a ∷ v ∷ l) e, rw valued p, o)
  | inr alone ↦
      let (before, option, done, e, p, o) =
        parse_loop-Stuck (v ∷ rest) (plain a req) (rw alone at h) in
      (a ∷ before, option, done, ap (◌∷◌ a) e, parse_loop-plain a before req alone ∙ p, o)
]

complete-out_of_range :
    (r : Result ArgsError TaskRequest) → complete r ≡ err out_of_range → r ≡ err out_of_range
complete-out_of_range (err e) h = h
complete-out_of_range (ok req) h = absurd (ground (arith, h))

-- The command panics exactly on arguments that can be read in full up to the last, and whose last is
-- `--committee` or `--identity`, where a value is missing.
pub parse_args-Dangling :
    (args : List String) → (parse_args args ≡ err out_of_range) ↔ Dangling args
unfolding parse_args Stuck
parse_args-Dangling args = (
  λ h. parse_loop-Stuck args start (complete-out_of_range (parse_loop args start) h),
  λ (before, option, req, e, p, o). rw e (
      ap complete
        (parse_loop-append before (option ∷ []) start req p ∙ out_of_range-last_arg option req o)),
)
