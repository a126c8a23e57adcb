-- ===== src/Manager/Steps.antt =====
-- A list of calls, made one after the other until one that must not fail does.
use dockyards_flux.Base.{
  String, Option, none, some, List, [], ◌∷◌, ◌++◌, ◌≡◌, ◌⊎◌, inl, inr, refl, arith, ap, sym, ◌∙◌,
  Option-cases,
}
use mathlib.Core.List.{append_assoc, append-nil}
use dockyards_flux.Base.Outcome.{Result, ok, err}
use dockyards_flux.Manager.Setup.{Call, Trace, Answers}

-- A call, and the message with which the program exits if it fails; `none` where its error is ignored.
abbrev pub Step : Type 0
Step = Call × Option String

module _ {E : Type 0} (answers : Answers E) where
  unfoldable pub run : List Step → Trace → Trace × Result (String × E) (Unit {0})
  run [] trace = (trace, ok tt)
  run ((call, none) ∷ steps) trace = run steps (trace ++ call ∷ [])
  run ((call, some message) ∷ steps) trace = elim (answers trace call) [
    | none ↦ run steps (trace ++ call ∷ [])
    | some e ↦ (trace ++ call ∷ [], err (message, e))
  ]

  -- Every call that must not fail answers nil in its place.
  abbrev pub Succeeds : List Step → Trace → Type 0
  Succeeds [] trace = Unit
  Succeeds ((call, none) ∷ steps) trace = Succeeds steps (trace ++ call ∷ [])
  Succeeds ((call, some message) ∷ steps) trace =
      (answers trace call ≡ none) × Succeeds steps (trace ++ call ∷ [])

  abbrev pub calls : List Step → List Call
  calls [] = []
  calls ((call, fatal) ∷ steps) = call ∷ calls steps

  -- All calls were made and none that must not fail did.
  pub record IsCompleted (steps : List Step) (trace trace' : Trace)
      (result : Result (String × E) (Unit {0})) : Type 0 where
    pub succeeded : Succeeds steps trace
    pub made : trace' ≡ trace ++ calls steps
    pub returned : result ≡ ok tt

  -- A call failed with an error, the first that must not; it was the last one made, and its message
  -- and its error are those of the result.
  pub record IsAborted (steps : List Step) (trace trace' : Trace)
      (result : Result (String × E) (Unit {0})) : Type 0 where
    pub before : List Step
    pub after : List Step
    pub call : Call
    pub message : String
    pub problem : E
    pub split : steps ≡ before ++ (call, some message) ∷ after
    pub succeeded : Succeeds before trace
    pub failed : answers (trace ++ calls before) call ≡ some problem
    pub made : trace' ≡ trace ++ (calls before ++ call ∷ [])
    pub returned : result ≡ err (message, problem)

  -- One more call in front.
  later-IsCompleted :
      (call : Call) (fatal : Option String) (steps : List Step) (trace trace' : Trace)
      (result : Result (String × E) (Unit {0}))
      → Succeeds ((call, fatal) ∷ []) trace
      → IsCompleted steps (trace ++ call ∷ []) trace' result
      → IsCompleted ((call, fatal) ∷ steps) trace trace' result
  later-IsCompleted call none steps trace trace' result fine c = record {
    succeeded = c.succeeded;
    made = c.made ∙ append_assoc trace (call ∷ []) (calls steps);
    returned = c.returned;
  }
  later-IsCompleted call (some message) steps trace trace' result fine c = record {
    succeeded = (fine.0, c.succeeded);
    made = c.made ∙ append_assoc trace (call ∷ []) (calls steps);
    returned = c.returned;
  }

  more :
      (call : Call) (fatal : Option String) (steps : List Step) (trace : Trace)
      → Succeeds ((call, fatal) ∷ []) trace
      → Succeeds steps (trace ++ call ∷ [])
      → Succeeds ((call, fatal) ∷ steps) trace
  more call none steps trace fine rest = rest
  more call (some message) steps trace fine rest = (fine.0, rest)

  later-IsAborted :
      (call : Call) (fatal : Option String) (steps : List Step) (trace trace' : Trace)
      (result : Result (String × E) (Unit {0}))
      → Succeeds ((call, fatal) ∷ []) trace
      → IsAborted steps (trace ++ call ∷ []) trace' result
      → IsAborted ((call, fatal) ∷ steps) trace trace' result
  later-IsAborted call fatal steps trace trace' result fine a = record {
    before = (call, fatal) ∷ a.before;
    after = a.after;
    call = a.call;
    message = a.message;
    problem = a.problem;
    split = ap (λ xs. (call, fatal) ∷ xs) a.split;
    succeeded = more call fatal a.before trace fine a.succeeded;
    failed =
        ap (λ t. answers t a.call) (sym (append_assoc trace (call ∷ []) (calls a.before)))
        ∙ a.failed;
    made = a.made ∙ append_assoc trace (call ∷ []) (calls a.before ++ a.call ∷ []);
    returned = a.returned;
  }

  -- A list of calls is either made to its end or given up at the first failure that counts.
  pub run_cases :
      (steps : List Step) (trace trace' : Trace) (result : Result (String × E) (Unit {0}))
      → run steps trace ≡ (trace', result)
      → IsCompleted steps trace trace' result ⊎ IsAborted steps trace trace' result
  unfolding run
  run_cases [] trace trace' result h = inl (record {
    succeeded = tt;
    made = sym (ap (λ x. x.0) h) ∙ sym (append-nil trace);
    returned = sym (ap (λ x. x.1) h);
  })
  run_cases ((call, none) ∷ steps) trace trace' result h =
      elim (run_cases steps (trace ++ call ∷ []) trace' result h) [
        | inl c ↦ inl (later-IsCompleted call none steps trace trace' result tt c)
        | inr a ↦ inr (later-IsAborted call none steps trace trace' result tt a)
      ]
  run_cases ((call, some message) ∷ steps) trace trace' result h =
      elim (Option-cases (answers trace call)) [
        | inl fine ↦
            elim (run_cases steps (trace ++ call ∷ []) trace' result (ground (arith, fine))) [
              | inl c ↦
                  inl (later-IsCompleted call (some message) steps trace trace' result (fine, tt) c)
              | inr a ↦
                  inr (later-IsAborted call (some message) steps trace trace' result (fine, tt) a)
            ]
        | inr (e, wrong) ↦ inr (record {
          before = [];
          after = steps;
          call = call;
          message = message;
          problem = e;
          split = refl;
          succeeded = tt;
          failed = ap (λ t. answers t call) (append-nil trace) ∙ wrong;
          made = ground (arith, wrong);
          returned = ground (arith, wrong);
        })
      ]
