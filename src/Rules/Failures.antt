-- ===== src/Rules/Failures.antt =====
-- Which exceptions the removal of a rule may end with: TcError, which the routes catch, and OSError.
use technicolor_haze_prism.Base.{
  ◌≡◌, refl, ◌⊎◌, inl, inr, ℕ, String, Bool, true, Option, none, some, List, text_key, ◌==◌, Action,
  Result, ok, err, os_error, tc_error, key_error, attribute_error, zero_division, value_error,
  http_error, not, ◌&&◌, nat_eq, pure, Bool-cases, ◌>>=◌,
}
use technicolor_haze_prism.Tc.{
  Kernel, Reply, completed, failed, run_tc, checked, delete_cmd, remove_rule, internet_port,
  client_port,
}
use technicolor_haze_prism.Rules.{FirewallRule}
use technicolor_haze_prism.Rules.Routes.{except_tc, removal, unprogram}

-- A value, or one of the two exceptions that tc_manager raises.
abbrev pub IsTcResult : {A : Type 0} → Result A → Type 0
IsTcResult (ok a) = Unit
IsTcResult (err (tc_error message)) = Unit
IsTcResult (err os_error) = Unit
IsTcResult (err key_error) = ⊥
IsTcResult (err attribute_error) = ⊥
IsTcResult (err zero_division) = ⊥
IsTcResult (err (value_error message)) = ⊥
IsTcResult (err (http_error status)) = ⊥

pub >>=-IsTcResult :
    {W A B : Type 0} (m : Action W A) (f : A → Action W B) (w : W)
    → IsTcResult (m w).0
    → ((a : A) (v : W) → IsTcResult (f a v).0)
    → IsTcResult ((m >>= f) w).0
>>=-IsTcResult {W = W} {A = A} m f w h k = go (m w) h
  where
    go : (p : Result A × W) → IsTcResult p.0 → IsTcResult (((λ v. p) >>= f) w).0
    go (ok a, v) h = k a v
    go (err x, v) h = h

-- Where TcError is caught, only OSError is left.
pub caught :
    (r : Result (Unit {0}))
    → IsTcResult r
    → (except_tc r (ok tt) ≡ ok tt) ⊎ (except_tc r (ok tt) ≡ err os_error)
caught (ok tt) h = inl refl
caught (err (tc_error message)) h = inl refl
caught (err os_error) h = inr refl
caught (err key_error) h = absurd h
caught (err attribute_error) h = absurd h
caught (err zero_division) h = absurd h
caught (err (value_error message)) h = absurd h
caught (err (http_error status)) h = absurd h

module _ {W : Type 0} (tc : Kernel W) where
  pub run_tc-IsTcResult :
      (args : List String) (check : Bool) (w : W) → IsTcResult (run_tc tc args check w).0
  unfolding run_tc
  run_tc-IsTcResult args check w = go check (tc args w).0
    where
      go : (check : Bool) (reply : Reply) → IsTcResult (checked tc check reply)
      go check failed = tt
      go check (completed c) = elim (Bool-cases (check && not (nat_eq c.returncode 0))) [
        | inl refused ↦ rw refused tt
        | inr passed ↦ rw passed tt
      ]

  remove_rule-IsTcResult :
      (port handle : String) (priority : ℕ) (w : W)
      → IsTcResult (remove_rule tc port handle priority w).0
  unfolding remove_rule
  remove_rule-IsTcResult port handle priority w = elim (Bool-cases (handle == "")) [
    | inl empty ↦ rw (remove_rule, empty) tt
    | inr given ↦
        rw (remove_rule, given)
          (>>=-IsTcResult (run_tc tc (delete_cmd port handle priority) true) (λ c. pure tt) w
            (run_tc-IsTcResult (delete_cmd port handle priority) true w) (λ c v. tt))
  ]

  removal-IsTcResult :
      (port : String) (handle : Option String) (priority : ℕ) (w : W)
      → IsTcResult (removal tc port handle priority w).0
  unfolding removal
  removal-IsTcResult port none priority w = tt
  removal-IsTcResult port (some handle) priority w = elim (Bool-cases (handle == "")) [
    | inl empty ↦ rw (removal, empty) tt
    | inr given ↦ rw (removal, given) (remove_rule-IsTcResult port handle priority w)
  ]

  pub unprogram-IsTcResult : (rule : FirewallRule) (w : W) → IsTcResult (unprogram tc rule w).0
  unfolding unprogram
  unprogram-IsTcResult rule w =
      >>=-IsTcResult (removal tc internet_port rule.tc_handle_fwd rule.priority)
        (λ u. removal tc client_port rule.tc_handle_rev rule.priority) w
        (removal-IsTcResult internet_port rule.tc_handle_fwd rule.priority w)
        (λ u v. removal-IsTcResult client_port rule.tc_handle_rev rule.priority v)
