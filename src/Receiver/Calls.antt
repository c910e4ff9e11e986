-- ===== src/Receiver/Calls.antt =====
-- The calls of one listener's start: each succeeds or raises OSError.
use technicolor_haze_prism.Base.{
  ℕ, text_key, ◌≡◌, refl, Bool, true, false, if◌then◌else◌, Action, pure, ◌>>◌, Result, ok, err,
  os_error, key_error, attribute_error, zero_division, value_error, tc_error, http_error,
}
use technicolor_haze_prism.Receiver.{Listener, Sockets, call, bind_any, start_listener}

-- A listener starts, then no field but these two differs, or it raises OSError.
abbrev pub IsStart : Listener → Result Listener → Type 0
IsStart l (ok m) = m ≡ record l { listening = true; stop_event = false }
IsStart l (err os_error) = Unit
IsStart l (err key_error) = ⊥
IsStart l (err attribute_error) = ⊥
IsStart l (err zero_division) = ⊥
IsStart l (err (value_error message)) = ⊥
IsStart l (err (tc_error message)) = ⊥
IsStart l (err (http_error status)) = ⊥

abbrev IsCall : Result (Unit {0}) → Type 0
IsCall (ok done) = Unit
IsCall (err os_error) = Unit
IsCall (err key_error) = ⊥
IsCall (err attribute_error) = ⊥
IsCall (err zero_division) = ⊥
IsCall (err (value_error message)) = ⊥
IsCall (err (tc_error message)) = ⊥
IsCall (err (http_error status)) = ⊥

module _ {W : Type 0} (os : Sockets W) where
  call-IsCall : (f : W → Bool × W) (w : W) → IsCall (call os f w).0
  unfolding call
  call-IsCall f w = go (f w).0
    where
      go : (done : Bool) → IsCall (if done then ok tt else err os_error)
      go true = tt
      go false = tt

  bind_any-IsCall : (l : Listener) (w : W) → IsCall (bind_any os l w).0
  unfolding bind_any
  bind_any-IsCall l w =
      go (os.bind l.is_tcp l.config.bind_ip l.config.port w).0
        (os.bind l.is_tcp l.config.bind_ip l.config.port w).1
    where
      go :
          (done : Bool) (v : W)
          → IsCall
              (if done then (ok tt, v) else call os (os.bind l.is_tcp "0.0.0.0" l.config.port) v).0
      go true v = tt
      go false v = call-IsCall (os.bind l.is_tcp "0.0.0.0" l.config.port) v

  -- What follows a call runs where the call succeeds.
  then-IsStart :
      (l : Listener) (m : Action W (Unit {0})) (k : Action W Listener) (w : W)
      → IsCall (m w).0
      → ((v : W) → IsStart l (k v).0)
      → IsStart l ((m >> k) w).0
  then-IsStart l m k w h after = go (m w).0 h
    where
      go :
          (r : Result (Unit {0}))
          → IsCall r
          → IsStart l
              (elim r as (λ _. Result Listener × W) [
                | ok a ↦ k (m w).1
                | err x ↦ (err x, (m w).1)
              ]).0
      go (ok done) h = after (m w).1
      go (err os_error) h = tt
      go (err key_error) h = h
      go (err attribute_error) h = h
      go (err zero_division) h = h
      go (err (value_error message)) h = h
      go (err (tc_error message)) h = h
      go (err (http_error status)) h = h

  listen-IsCall :
      (tcp : Bool) (port : ℕ) (w : W)
      → IsCall ((if tcp then call os (os.listen port) else pure tt) w).0
  listen-IsCall true port w = call-IsCall (os.listen port) w
  listen-IsCall false port w = tt

  pub start_listener-IsStart : (l : Listener) (w : W) → IsStart l (start_listener os l w).0
  unfolding start_listener
  start_listener-IsStart l w =
      let up : Action W Listener = pure (record l { listening = true; stop_event = false }) in
      let heard : Action W (Unit {0}) =
        if l.is_tcp then call os (os.listen l.config.port) else pure tt in
      then-IsStart l (call os (os.create l.is_tcp)) (bind_any os l >> (heard >> up)) w
        (call-IsCall (os.create l.is_tcp) w)
        (λ v.
          then-IsStart l (bind_any os l) (heard >> up) v (bind_any-IsCall l v)
            (λ u. then-IsStart l heard up u (listen-IsCall l.is_tcp l.config.port u) (λ x. refl)))
