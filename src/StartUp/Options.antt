-- ===== src/StartUp/Options.antt =====
-- The command lines that server/main.cc accepts.
use chat_service.Base.{
  Text, true, List, [], ◌∷◌, Option, codes, text_eq, text_eq_iff, ◌≡◌, ◌↔◌, refl, ap, sym, ◌∙◌,
  Bool-cases, inl, inr, arith,
}
use chat_service.StartUp.{
  ServerOptions, ParsedOptions, parsed, usage, rejected, is_help, last_argument, parse_arguments,
  from_environment, default_options, parse_options,
}

-- What a user may set, with a path each.
pub data Setting : Type 0 where
  database dump : Text → Setting

-- How the settings are written.
abbrev pub arguments_of : List Setting → List Text
arguments_of [] = []
arguments_of (database path ∷ ss) = codes "--db" ∷ path ∷ arguments_of ss
arguments_of (dump path ∷ ss) = codes "--dump-history" ∷ path ∷ arguments_of ss

-- What they stand for: of two for the same, the later counts.
abbrev pub options_of : List Setting → ServerOptions → ServerOptions
options_of [] options = options
options_of (database path ∷ ss) options = options_of ss (record options { db_path = path })
options_of (dump path ∷ ss) options =
    options_of ss (record options { dump_history = true; dump_path = path })

settings-parsed :
    (ss : List Setting) (options : ServerOptions)
    → parse_arguments (arguments_of ss) options ≡ parsed (options_of ss options)
unfolding parse_arguments text_eq codes
settings-parsed [] options = refl
settings-parsed (database path ∷ ss) options =
    settings-parsed ss (record options { db_path = path })
settings-parsed (dump path ∷ ss) options =
    settings-parsed ss (record options { dump_history = true; dump_path = path })

last_argument-parsed :
    (arg : Text) (options : ServerOptions) → last_argument arg ≡ parsed options → ⊥
unfolding last_argument
last_argument-parsed arg options h = ground arith

abbrev options_in : ParsedOptions → ServerOptions
options_in (parsed options) = options
options_in usage = default_options
options_in (rejected e) = default_options

-- What two arguments at the start may be.
data Start (arg value : Text) (args : List Text) (options result : ServerOptions) : Type 0 where
  sets_database :
      arg ≡ codes "--db"
      → parse_arguments args (record options { db_path = value }) ≡ parsed result
      → Start arg value args options result
  sets_dump :
      arg ≡ codes "--dump-history"
      → parse_arguments args (record options { dump_history = true; dump_path = value })
        ≡ parsed result
      → Start arg value args options result

parsed-Start :
    (arg value : Text) (args : List Text) (options result : ServerOptions)
    → parse_arguments (arg ∷ value ∷ args) options ≡ parsed result
    → Start arg value args options result
unfolding parse_arguments
parsed-Start arg value args options result h = elim (Bool-cases (is_help arg)) [
  | inl k ↦ absurd (ground arith)
  | inr k ↦ elim (Bool-cases (text_eq arg (codes "--db"))) [
    | inl l ↦ sets_database ((text_eq_iff arg (codes "--db")).0 l) (ground arith)
    | inr l ↦ elim (Bool-cases (text_eq arg (codes "--dump-history"))) [
      | inl m ↦ sets_dump ((text_eq_iff arg (codes "--dump-history")).0 m) (ground arith)
      | inr m ↦ absurd (ground arith)
    ]
  ]
]

parsed-settings :
    (args : List Text) (options result : ServerOptions)
    → parse_arguments args options ≡ parsed result
    → (ss : List Setting) × (args ≡ arguments_of ss) × (result ≡ options_of ss options)
unfolding parse_arguments
parsed-settings [] options result h = ([], refl, sym (ap options_in h))
parsed-settings (arg ∷ []) options result h = absurd (last_argument-parsed arg result h)
parsed-settings (arg ∷ value ∷ args) options result h =
    elim (parsed-Start arg value args options result h) [
      | sets_database e p ↦
          let (ss, f, g) = parsed-settings args (record options { db_path = value }) result p in
          (database value ∷ ss, rw (e, f) refl, g)
      | sets_dump e p ↦
          let (ss, f, g) =
            parsed-settings args (record options { dump_history = true; dump_path = value }) result
              p in
          (dump value ∷ ss, rw (e, f) refl, g)
    ]

-- The program accepts exactly the command lines that are settings of the two paths one after another,
-- each in two arguments, and takes them over what the environment sets; of two for the same path, the
-- later counts.
pub parse_options_iff :
    (environment : Option Text) (args : List Text) (options : ServerOptions)
    → (parse_options environment args ≡ parsed options) ↔ (
        (ss : List Setting) × (args ≡ arguments_of ss)
        × (options ≡ options_of ss (from_environment environment default_options)))
unfolding parse_options
parse_options_iff environment args options =
    let start = from_environment environment default_options in
    (
      parsed-settings args start options,
      λ (ss, e, f).
          ap (λ a. parse_arguments a start) e ∙ settings-parsed ss start ∙ ap parsed (sym f),
    )
