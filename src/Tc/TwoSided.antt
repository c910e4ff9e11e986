-- ===== src/Tc/TwoSided.antt =====
-- The rules of tc_manager.py that stand on both ports: which commands they run, in what order, on
-- every outcome, under a kernel that notes the commands.
use technicolor_haze_prism.Base.{
  ℕ, ◌≡◌, refl, String, Bool, true, false, List, [], ◌∷◌, ◌++◌, nat_eq, if◌then◌else◌, Action,
  Result, ok, err, tc_error, arith, Bool-cases, inl, inr, ◌>>=◌, ◌>>◌, pure,
}
use technicolor_haze_prism.Tc.{
  Kernel, Completed, tc_failed, completed, Match, run_tc, internet_port, client_port,
  build_flower_cmd, reverse_match, show_cmd, get_last_handle, find_handles, last_or_empty,
  add_redirect_rule, add_drop_rule, add_allow_rule, add_deny_rule,
}

-- A kernel that runs every command to the end and notes it.
abbrev pub Log : Type 0
Log = List (List String)

abbrev pub recorder : (List String → Log → Completed) → Kernel Log
recorder answer args log = (completed (answer args log), log ++ (args ∷ []))

abbrev pub redirect_cmd : String → String → Match → List String
redirect_cmd dev target m =
    build_flower_cmd dev m ++ ("action" ∷ "mirred" ∷ "egress" ∷ "redirect" ∷ "dev" ∷ target ∷ [])

abbrev pub drop_cmd : String → Match → List String
drop_cmd dev m = build_flower_cmd dev m ++ ("action" ∷ "drop" ∷ [])

module _ (answer : List String → Log → Completed) where
  abbrev pub succeeds : List String → Log → Bool
  succeeds args log = nat_eq (answer args log).returncode 0

  pub run_tc-recorder :
      (args : List String) (log : Log)
      → run_tc (recorder answer) args false log ≡ (ok (answer args log), log ++ (args ∷ []))
  unfolding run_tc
  run_tc-recorder args log = refl

  -- The handle that is read back: the last that the answer to `tc filter show` prints.
  unfoldable pub handle_read : String → ℕ → Log → String
  unfolding find_handles last_or_empty
  handle_read dev priority log =
      let shown = answer (show_cmd dev priority) log in
      if nat_eq shown.returncode 0 then last_or_empty (find_handles shown.stdout) else ""

  get_last_handle-recorder :
      (dev : String) (priority : ℕ) (log : Log)
      → get_last_handle (recorder answer) dev priority log
        ≡ (ok (handle_read dev priority log), log ++ (show_cmd dev priority ∷ []))
  unfolding get_last_handle run_tc handle_read
  get_last_handle-recorder dev priority log = refl

  -- One side: a command that must succeed, and its handle read back.
  side : List String → String → ℕ → Action Log String
  side cmd dev priority = do
    run_tc (recorder answer) cmd true
    get_last_handle (recorder answer) dev priority

  -- How a two-sided rule may end. Where the second filter is refused, the first one stays: no command
  -- takes it back.
  pub data TwoSided (first second : List String) (dev back : String) (priority : ℕ) (log : Log)
      (r : Result (String × String)) (t : Log) : Type 0 where
    first_refused :
        succeeds first log ≡ false
        → r ≡ err (tc_error (tc_failed (answer first log).stderr))
        → t ≡ log ++ (first ∷ [])
        → TwoSided first second dev back priority log r t
    second_refused :
        (middle : Log)
        → middle ≡ log ++ (first ∷ []) ++ (show_cmd dev priority ∷ [])
        → succeeds first log ≡ true
        → succeeds second middle ≡ false
        → r ≡ err (tc_error (tc_failed (answer second middle).stderr))
        → t ≡ middle ++ (second ∷ [])
        → TwoSided first second dev back priority log r t
    both :
        (middle : Log)
        → middle ≡ log ++ (first ∷ []) ++ (show_cmd dev priority ∷ [])
        → succeeds first log ≡ true
        → succeeds second middle ≡ true
        → r
          ≡ ok (
            handle_read dev priority (log ++ (first ∷ [])),
            handle_read back priority (middle ++ (second ∷ [])),
          )
        → t ≡ middle ++ (second ∷ []) ++ (show_cmd back priority ∷ [])
        → TwoSided first second dev back priority log r t

  two_sides : List String → List String → String → String → ℕ → Action Log (String × String)
  unfolding side
  two_sides first second dev back priority = do
    fwd_handle ← side first dev priority
    rev_handle ← side second back priority
    pure (fwd_handle, rev_handle)

  two_sides-TwoSided :
      (first second : List String) (dev back : String) (priority : ℕ) (log : Log)
      → let (r, t) = two_sides first second dev back priority log in
        TwoSided first second dev back priority log r t
  unfolding two_sides side run_tc get_last_handle handle_read
  two_sides-TwoSided first second dev back priority log = elim (Bool-cases (succeeds first log)) [
    | inr refused ↦ first_refused refused (ground (arith, refused)) (ground (arith, refused))
    | inl passed ↦
        let middle = log ++ (first ∷ []) ++ (show_cmd dev priority ∷ []) in
        elim (Bool-cases (succeeds second middle)) [
          | inr refused ↦
              second_refused middle refl passed refused (ground (arith, passed, refused))
                (ground (arith, passed, refused))
          | inl also ↦
              both middle refl passed also (ground (arith, passed, also))
                (ground (arith, passed, also))
        ]
  ]

  pub add_allow_rule-TwoSided :
      (m : Match) (log : Log)
      → let back : Match = record {
        src_ip = m.dst_ip;
        dst_ip = m.src_ip;
        src_port = m.dst_port;
        dst_port = m.src_port;
        protocol = m.protocol;
        priority = m.priority;
      } in
        let (r, t) = add_allow_rule (recorder answer) m log in
        TwoSided
          (redirect_cmd "pf0vf0" "pf0vf3" m)
          (redirect_cmd "pf0vf3" "pf0vf0" back)
          "pf0vf0"
          "pf0vf3"
          m.priority
          log
          r
          t
  unfolding add_allow_rule add_redirect_rule two_sides side reverse_match
  add_allow_rule-TwoSided m log =
      two_sides-TwoSided (redirect_cmd internet_port client_port m)
        (redirect_cmd client_port internet_port (reverse_match m)) internet_port client_port
        m.priority log

  -- A deny rule drops on the internet port, then the reversed match on the client port, in this order;
  -- where the second filter is refused, the first one stays and no command takes it back.
  pub add_deny_rule-TwoSided :
      (m : Match) (log : Log)
      → let (r, t) = add_deny_rule (recorder answer) m log in
        TwoSided
          (drop_cmd internet_port m)
          (drop_cmd client_port (reverse_match m))
          internet_port
          client_port
          m.priority
          log
          r
          t
  unfolding add_deny_rule add_drop_rule two_sides side reverse_match
  add_deny_rule-TwoSided m log =
      two_sides-TwoSided (drop_cmd internet_port m) (drop_cmd client_port (reverse_match m))
        internet_port client_port m.priority log
