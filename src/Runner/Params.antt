-- ===== src/Runner/Params.antt =====
-- Every process gets the test commands enabled, or what its parameters say of them.
use drivers_evergreen_tools.Common.{
  ◌≡◌, refl, Bool, true, false, Bool-cases, inl, inr, List, [], ◌∷◌, ◌++◌, any, any-append, arith,
}
use drivers_evergreen_tools.Common.Text.{Text, codes, text_eq, text_eq_iff}
use drivers_evergreen_tools.Mongodl.Url.{is_prefix}
use drivers_evergreen_tools.Runner.{
  Scalar, flag, plain, dict, scalar, Params, append_arg, format_value, option_name, sub_params,
  proc_params_loop, handle_proc_params,
}

-- The argument sets the test commands.
pub sets_test_commands : Text → Bool
sets_test_commands arg = is_prefix (codes "enableTestCommands=") arg

-- The arguments hold a setting where one was found.
abbrev Kept : Bool × List Text → Type 0
Kept state = state.0 ≡ true → any sets_test_commands state.1 ≡ true

any-left :
    (xs ys : List Text)
    → any sets_test_commands xs ≡ true
    → any sets_test_commands (xs ++ ys) ≡ true
any-left xs ys h = rw (any-append sets_test_commands xs ys, h) refl

any-right :
    (xs ys : List Text)
    → any sets_test_commands ys ≡ true
    → any sets_test_commands (xs ++ ys) ≡ true
any-right [] ys h = h
any-right (x ∷ xs) ys h = ground (arith, any-right xs ys h)

append_arg-any :
    (args : List Text) (key : Text) (value : Scalar)
    → any sets_test_commands args ≡ true
    → any sets_test_commands (append_arg args key value) ≡ true
unfolding append_arg
append_arg-any args key (flag true) h = any-left args _ h
append_arg-any args key (flag false) h = h
append_arg-any args key (plain s) h = any-left args _ h

setting :
    (subkey value : Text)
    → text_eq subkey (codes "enableTestCommands") ≡ true
    → sets_test_commands (subkey ++ codes "=" ++ value) ≡ true
unfolding sets_test_commands is_prefix
setting subkey value h = rw ((text_eq_iff subkey (codes "enableTestCommands")).0 h) refl

second :
    (name value : Text)
    → sets_test_commands value ≡ true
    → any sets_test_commands (name ∷ value ∷ []) ≡ true
second name value h = ground arith

-- What the function adds where no setting was found.
added :
    any sets_test_commands (codes "--setParameter" ∷ codes "enableTestCommands=true" ∷ []) ≡ true
unfolding sets_test_commands is_prefix
added = refl

sub_params-Kept :
    (key : Text) (params : List (Text × Scalar)) (state : Bool × List Text)
    → Kept state
    → Kept (sub_params key params state)
unfolding sub_params
sub_params-Kept key [] (found, args) h = h
sub_params-Kept key ((subkey, value) ∷ params) (found, args) h = sub_params-Kept key params _ λ e.
    elim (Bool-cases (text_eq subkey (codes "enableTestCommands"))) [
      | inl t ↦ any-right args _ (
          second (option_name key) (subkey ++ codes "=" ++ format_value value)
            (setting subkey (format_value value) t))
      | inr n ↦ any-left args _ (h (ground arith))
    ]

loop-Kept :
    (params : Params) (state : Bool × List Text) → Kept state → Kept (proc_params_loop params state)
unfolding proc_params_loop
loop-Kept [] (found, args) h = h
loop-Kept ((key, dict values) ∷ params) (found, args) h =
    loop-Kept params _ (sub_params-Kept key values (found, args) h)
loop-Kept ((key, scalar value) ∷ params) (found, args) h =
    loop-Kept params _ λ e. append_arg-any args key value (h e)

-- Among the arguments of a process one sets `enableTestCommands`.
pub handle_proc_params_lem :
    (params : Params) (args : List Text)
    → any sets_test_commands (handle_proc_params params args) ≡ true
unfolding handle_proc_params
handle_proc_params_lem params args = elim (Bool-cases (proc_params_loop params (false, args)).0) [
  | inl e ↦ rw e (loop-Kept params (false, args) (λ f. ground arith) e)
  | inr e ↦ rw e (any-right (proc_params_loop params (false, args)).1 _ added)
]
