-- ===== src/Base/Actions.antt =====
-- A Python call that may change the state and may raise: the state comes back after a raise too,
-- since what was written stays written.
use Prim.Native.Nat.{ℕ}
use Prim.Native.String.{String}
use mathlib.Core.Option.{Option, none, some}

-- The exceptions of the program. `os_error` stands for whatever `subprocess.run` or a socket raises
-- itself: a missing program and the TimeoutExpired of one that hangs are the same exception here, since
-- every handler of the daemon that sees one sees the other.
pub data Exn : Type 0 where
  key_error attribute_error zero_division os_error : Exn
  value_error tc_error : String → Exn
  http_error : ℕ → Exn

pub data Result {ℓ} (A : Type ℓ) : Type ℓ where
  ok : A → Result A
  err : Exn → Result A

abbrev pub Action : Type 0 → Type 0 → Type 0
Action S A = S → Result A × S

module _ {S A : Type 0} where
  abbrev pub pure : A → Action S A
  pure a s = (ok a, s)

  abbrev pub raise : Exn → Action S A
  raise x s = (err x, s)

  abbrev pub gets : (S → A) → Action S A
  gets f s = (ok (f s), s)

  abbrev pub or_raise : Option A → Exn → Action S A
  or_raise none x = raise x
  or_raise (some a) x = pure a

abbrev pub modify : {S : Type 0} → (S → S) → Action S (Unit {0})
modify f s = (ok tt, f s)

infixl 5 ◌>>=◌ ◌>>◌
abbrev pub ◌>>=◌ : {S A B : Type 0} → Action S A → (A → Action S B) → Action S B
◌>>=◌ m f s = let (r, t) = m s in elim r [ ok a ↦ f a t | err x ↦ (err x, t) ]

abbrev pub ◌>>◌ : {S A B : Type 0} → Action S A → Action S B → Action S B
m >> k = m >>= λ _. k
