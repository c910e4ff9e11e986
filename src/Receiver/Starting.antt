-- ===== src/Receiver/Starting.antt =====
-- How a start of the traffic receiver ends, and what a stop does after it.
use technicolor_haze_prism.Base.{
  ℕ, String, text_key, ◌==◌, ◌≡◌, refl, sym, ap, ◌∙◌, subst, true, false, List, [], ◌∷◌, ◌++◌, map,
  if◌then◌else◌, Result, ok, err, os_error, key_error, attribute_error, zero_division, value_error,
  tc_error, http_error, All, length, arith,
}
use technicolor_haze_prism.Receiver.{
  Receiver, Listener, ListenerConfig, Sockets, new_listener, start_listener, start_each, start,
  stop, stop_listener,
}
use technicolor_haze_prism.Receiver.Calls.{IsStart, start_listener-IsStart}

-- The listener of a configuration that is up: on the port of the configuration and the address of the
-- receiver, with all counters at zero.
abbrev pub opened : String → ListenerConfig → Listener
opened ip c = record {
  config = record { port = c.port; protocol = c.protocol; bind_ip = ip };
  is_tcp = c.protocol == "tcp";
  stats = record {
    port = c.port;
    protocol = if c.protocol == "tcp" then "tcp" else "udp";
    connections = 0;
    packets = 0;
    bytes_received = 0;
    last_seen = 0;
  };
  listening = true;
  stop_event = false;
}

abbrev pub IsClosed : Listener → Type 0
IsClosed l = l.listening ≡ false

-- How the loop of a start ends: with the listener of each configuration, or by the OSError of one,
-- with the listeners of those before it.
data Each {W : Type 0} (os : Sockets W) (configs : List ListenerConfig) (r : Receiver)
    (a : Result (Unit {0})) (t : Receiver) : Type 0 where
  all_started :
      a ≡ ok tt
      → t ≡ record r { listeners = r.listeners ++ map (λ c. opened r.bind_ip c) configs }
      → Each os configs r a t
  some_started :
      (before rest : List ListenerConfig) (c : ListenerConfig) (v : W)
      → a ≡ err os_error
      → configs ≡ before ++ (c ∷ rest)
      → (start_listener os (new_listener (record c { bind_ip = r.bind_ip })) v).0 ≡ err os_error
      → t ≡ record r { listeners = r.listeners ++ map (λ c. opened r.bind_ip c) before }
      → Each os configs r a t

append_nil : (xs : List Listener) → xs ++ [] ≡ xs
append_nil [] = refl
append_nil (x ∷ xs) = ap (λ ys. x ∷ ys) (append_nil xs)

append_assoc :
    (xs : List Listener) (l : Listener) (ys : List Listener)
    → (xs ++ (l ∷ [])) ++ ys ≡ xs ++ (l ∷ ys)
append_assoc [] l ys = refl
append_assoc (x ∷ xs) l ys = ap (λ zs. x ∷ zs) (append_assoc xs l ys)

module _ {W : Type 0} (os : Sockets W) where
  start_each-Each :
      (configs : List ListenerConfig) (r : Receiver) (w : W)
      → Each os configs r (start_each os configs (r, w)).0 (start_each os configs (r, w)).1.0
  unfolding start_each new_listener
  start_each-Each [] r w =
      all_started refl (ap (λ ls. record r { listeners = ls }) (sym (append_nil r.listeners)))
  start_each-Each (c ∷ configs) r w =
      let fresh = new_listener (record c { bind_ip = r.bind_ip }) in
      go (start_listener os fresh w).0 (start_listener-IsStart os fresh w) refl
        (start_listener os fresh w).1
        (λ l.
          start_each-Each configs (record r { listeners = r.listeners ++ (l ∷ []) })
            (start_listener os fresh w).1)
    where
      by_rest :
          {a : Result (Unit {0})} {t : Receiver} (l : Listener)
          → l ≡ opened r.bind_ip c
          → Each os configs (record r { listeners = r.listeners ++ (l ∷ []) }) a t
          → Each os (c ∷ configs) r a t
      by_rest l up (all_started a t) = all_started a (
          t
          ∙ ap (λ ls. record r { listeners = ls })
              (append_assoc r.listeners l (map (λ c. opened r.bind_ip c) configs))
          ∙ ap
              (λ m. record r {
                listeners = r.listeners ++ (m ∷ map (λ c. opened r.bind_ip c) configs);
              })
              up)
      by_rest l up (some_started before rest d v a e fails t) =
          some_started (c ∷ before) rest d v a (ap (λ cs. c ∷ cs) e) fails (
            t
            ∙ ap (λ ls. record r { listeners = ls })
                (append_assoc r.listeners l (map (λ c. opened r.bind_ip c) before))
            ∙ ap
                (λ m. record r {
                  listeners = r.listeners ++ (m ∷ map (λ c. opened r.bind_ip c) before);
                })
                up)

      go :
          (a : Result Listener)
          → IsStart (new_listener (record c { bind_ip = r.bind_ip })) a
          → (start_listener os (new_listener (record c { bind_ip = r.bind_ip })) w).0 ≡ a
          → (v : W)
          → ((l : Listener)
              → Each os configs
                  (record r { listeners = r.listeners ++ (l ∷ []) })
                  (start_each os configs (record r { listeners = r.listeners ++ (l ∷ []) }, v)).0
                  (start_each os configs (record r { listeners = r.listeners ++ (l ∷ []) }, v)).1.0)
          → let after : Result (Unit {0}) × (Receiver × W) = elim a [
            | ok l ↦ start_each os configs (record r { listeners = r.listeners ++ (l ∷ []) }, v)
            | err x ↦ (err x, (r, v))
          ] in
            Each os (c ∷ configs) r after.0 after.1.0
      go (ok l) h e v rest = by_rest l h (rest l)
      go (err os_error) h e v rest =
          some_started [] configs c w refl refl e
            (ap (λ ls. record r { listeners = ls }) (sym (append_nil r.listeners)))
      go (err key_error) h e v rest = elim h [ ]
      go (err attribute_error) h e v rest = elim h [ ]
      go (err zero_division) h e v rest = elim h [ ]
      go (err (value_error message)) h e v rest = elim h [ ]
      go (err (tc_error message)) h e v rest = elim h [ ]
      go (err (http_error status)) h e v rest = elim h [ ]

-- How a start of a receiver that does not run may end: all its listeners are up and a stop closes
-- them all, or one raises OSError and those before it stay, as `stop` changes nothing then.
pub data Starting {W : Type 0} (os : Sockets W) (r : Receiver) (a : Result (Unit {0}))
    (t : Receiver) : Type 0 where
  started :
      a ≡ ok tt
      → t.running ≡ true
      → t.listeners ≡ map (λ c. opened r.bind_ip c) r.configs
      → (stop t).running ≡ false
      → length (stop t).listeners ≡ length r.configs
      → All IsClosed (stop t).listeners
      → Starting os r a t
  stranded :
      (before rest : List ListenerConfig) (c : ListenerConfig) (v : W)
      → a ≡ err os_error
      → t.running ≡ false
      → r.configs ≡ before ++ (c ∷ rest)
      → (start_listener os (new_listener (record c { bind_ip = r.bind_ip })) v).0 ≡ err os_error
      → t.listeners ≡ map (λ c. opened r.bind_ip c) before
      → stop t ≡ t
      → Starting os r a t

counted :
    (ip : String) (cs : List ListenerConfig)
    → length (map (λ l. stop_listener l) (map (λ c. opened ip c) cs)) ≡ length cs
counted ip [] = refl
counted ip (c ∷ cs) = ground (arith, counted ip cs)

closed : (ls : List Listener) → All IsClosed (map (λ l. stop_listener l) ls)
unfolding stop_listener
closed [] = tt
closed (l ∷ ls) = (refl, closed ls)

module _ {W : Type 0} (os : Sockets W) where
  start-cases :
      (now : ℕ) (r : Receiver) (w : W)
      → r.running ≡ false
      → let first = start_each os r.configs (record r { start_time = now; listeners = [] }, w) in
        ((first.0 ≡ ok tt)
          → start os now (r, w) ≡ (ok tt, (record first.1.0 { running = true }, first.1.1)))
        × ((first.0 ≡ err os_error) → start os now (r, w) ≡ (err os_error, first.1))
  unfolding start
  start-cases now r w idle = (λ e. ground (arith, idle, e), λ e. ground (arith, idle, e))

  pub start-Starting :
      (now : ℕ) (r : Receiver) (w : W)
      → r.running ≡ false
      → Starting os r (start os now (r, w)).0 (start os now (r, w)).1.0
  unfolding stop
  start-Starting now r w idle =
      go (start_each-Each os r.configs (record r { start_time = now; listeners = [] }) w)
    where
      up : List Listener
      up = map (λ c. opened r.bind_ip c) r.configs

      go :
          Each os r.configs
            (record r { start_time = now; listeners = [] })
            (start_each os r.configs (record r { start_time = now; listeners = [] }, w)).0
            (start_each os r.configs (record r { start_time = now; listeners = [] }, w)).1.0
          → Starting os r (start os now (r, w)).0 (start os now (r, w)).1.0
      go (all_started a t) =
          subst (λ s. Starting os r s.0 s.1.0) (sym ((start-cases now r w idle).0 a))
            (subst (λ u. Starting os r (ok tt) (record u { running = true })) (sym t)
              (started refl refl refl refl (counted r.bind_ip r.configs) (closed up)))
      go (some_started before rest c v a e fails t) =
          subst (λ s. Starting os r s.0 s.1.0) (sym ((start-cases now r w idle).1 a))
            (subst (λ u. Starting os r (err os_error) u) (sym t)
              (stranded before rest c v refl idle e fails refl (rw (stop, idle) refl)))
