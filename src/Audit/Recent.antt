-- ===== src/Audit/Recent.antt =====
-- What the ring buffer holds: the newest entries of all that were logged, newest first.
use technicolor_haze_prism.Base.{
  ℕ, zero, suc, ◌≡◌, refl, ap, sym, subst, ◌∙◌, ◌≤◌, String, Bool, true, false, Option, List, [],
  ◌∷◌, ◌++◌, ltb, length, take, length-append, arith, Bool-cases, inl, inr, ◌⊎◌,
}
use technicolor_haze_prism.Audit.{
  maxlen, AuditEntry, AuditLogger, LogCall, entry_of, drop_first, push, log, reverse, get_recent,
  init,
}

no_room : (n : ℕ) → ltb n 1 ≡ true → n ≡ 0
no_room n full = ground (arith, full)

module _ {A : Type 0} where
  reverse-snoc : (x : A) (xs : List A) → reverse (xs ++ (x ∷ [])) ≡ x ∷ reverse xs
  unfolding reverse
  reverse-snoc x [] = refl
  reverse-snoc x (y ∷ xs) = rw (reverse-snoc x xs)

  length-reverse : (xs : List A) → length (reverse xs) ≡ length xs
  unfolding reverse
  length-reverse [] = refl
  length-reverse (x ∷ xs) = omega (arith, length-append (reverse xs) (x ∷ []), length-reverse xs)

  take-all : (n : ℕ) (xs : List A) → length xs ≤ n → take n xs ≡ xs
  take-all zero [] h = refl
  take-all zero (x ∷ xs) h = absurd (omega (arith, h))
  take-all (suc n) [] h = refl
  take-all (suc n) (x ∷ xs) h = ap (λ l. x ∷ l) (take-all n xs (omega (arith, h)))

  take-append : (xs ys : List A) → take (length xs) (xs ++ ys) ≡ xs
  take-append [] [] = refl
  take-append [] (y ∷ ys) = refl
  take-append (x ∷ xs) ys = ap (λ l. x ∷ l) (take-append xs ys)

  take-take : (n : ℕ) (x : A) (xs : List A) → take n (x ∷ take n xs) ≡ take n (x ∷ xs)
  take-take zero x xs = refl
  take-take (suc zero) x xs = refl
  take-take (suc (suc n)) x [] = refl
  take-take (suc (suc n)) x (y ∷ xs) = ap (λ l. x ∷ l) (take-take (suc n) y xs)

  -- A bounded append never leaves more than the bound.
  length-push : (n : ℕ) (x : A) (xs : List A) → length xs ≤ n → length (push n x xs) ≤ n
  unfolding push drop_first
  length-push n x [] h = ground (arith)
  length-push n x (y ∷ xs) h = ground (arith, h, length-append xs (x ∷ []))

  at_bound :
      (n : ℕ) (xs : List A) (x y : A)
      → length (y ∷ xs) ≤ n
      → ltb n (length ((y ∷ xs) ++ (x ∷ []))) ≡ true
      → n ≡ suc (length xs)
  at_bound n xs x y h full = ground (arith, h, full, length-append xs (x ∷ []))

  cut : (xs : List A) (y : A) → take (length xs) (reverse (y ∷ xs)) ≡ reverse xs
  unfolding reverse
  cut xs y =
      subst (λ n. take n (reverse xs ++ (y ∷ [])) ≡ reverse xs) (length-reverse xs)
        (take-append (reverse xs) (y ∷ []))

  -- Newest first, a bounded append puts the entry in front and cuts at the bound.
  reverse-push :
      (n : ℕ) (x : A) (xs : List A)
      → length xs ≤ n
      → reverse (push n x xs) ≡ take n (x ∷ reverse xs)
  unfolding push drop_first reverse
  reverse-push n x xs h = go xs h (Bool-cases (ltb n (length (xs ++ (x ∷ [])))))
    where
      go :
          (xs : List A)
          → length xs ≤ n
          → (ltb n (length (xs ++ (x ∷ []))) ≡ true) ⊎ (ltb n (length (xs ++ (x ∷ []))) ≡ false)
          → reverse (push n x xs) ≡ take n (x ∷ reverse xs)
      go xs h (inr fits) = rw fits (
          reverse-snoc x xs
          ∙ sym (
              take-all n (x ∷ reverse xs)
                (ground (arith, fits, length-append xs (x ∷ []), length-reverse xs))))
      go [] h (inl full) = rw (full, no_room n full) refl
      go (y ∷ xs) h (inl full) =
          rw full
            (reverse-snoc x xs ∙ sym (rw (at_bound n xs x y h full) (ap (λ l. x ∷ l) (cut xs y))))

-- The log after calls in this order.
unfoldable pub log_all : List LogCall → AuditLogger → AuditLogger
log_all [] l = l
log_all (c ∷ calls) l = log_all calls (log c l).1

-- The entries of calls, the last call first, before older entries.
unfoldable pub newest_first : List LogCall → List AuditEntry → List AuditEntry
newest_first [] older = older
newest_first (c ∷ calls) older = newest_first calls (entry_of c ∷ older)

module _ (n : ℕ) where
  -- The buffer is the newest of these entries, oldest first.
  record Holds (older : List AuditEntry) (l : AuditLogger) : Type 0 where
    bounded : length l.recent_entries ≤ n
    newest : reverse l.recent_entries ≡ take n older

log-Holds :
    (c : LogCall) (older : List AuditEntry) (l : AuditLogger)
    → Holds maxlen older l
    → Holds maxlen (entry_of c ∷ older) (log c l).1
unfolding log
log-Holds c older l held = record {
  bounded = length-push maxlen (entry_of c) l.recent_entries held.bounded;
  newest =
      reverse-push maxlen (entry_of c) l.recent_entries held.bounded
      ∙ (ap (λ xs. take maxlen (entry_of c ∷ xs)) held.newest
          ∙ take-take maxlen (entry_of c) older);
}

empty-Holds :
    (log_dir log_file : Option String) (max_bytes backup_count : ℕ) (opened : Bool)
    → Holds maxlen [] (init log_dir log_file max_bytes backup_count opened)
unfolding init reverse
empty-Holds log_dir log_file max_bytes backup_count opened = record {
  bounded = omega arith;
  newest = refl;
}

log_all-Holds :
    (calls : List LogCall) (older : List AuditEntry) (l : AuditLogger)
    → Holds maxlen older l
    → Holds maxlen (newest_first calls older) (log_all calls l)
unfolding log_all newest_first
log_all-Holds [] older l held = held
log_all-Holds (c ∷ calls) older l held =
    log_all-Holds calls (entry_of c ∷ older) (log c l).1 (log-Holds c older l held)

-- After any calls on a new log, `get_recent` answers the entries of all the calls, the last call
-- first, cut at the 1000 that the buffer holds and then at the limit.
pub get_recent-log_all :
    (log_dir log_file : Option String) (max_bytes backup_count : ℕ) (opened : Bool)
    (calls : List LogCall) (limit : ℕ)
    → get_recent limit (log_all calls (init log_dir log_file max_bytes backup_count opened))
      ≡ take limit (take maxlen (newest_first calls []))
unfolding get_recent
get_recent-log_all log_dir log_file max_bytes backup_count opened calls limit =
    ap (take limit)
      (log_all-Holds calls [] (init log_dir log_file max_bytes backup_count opened)
        (empty-Holds log_dir log_file max_bytes backup_count opened)).newest
