-- ===== src/Snat/Release.antt =====
-- `release_port`: what is freed, and that it undoes `allocate_port`.
use technicolor_haze_prism.Base.{
  ℕ, ◌≡◌, refl, subst, inl, inr, String, Bool, true, false, ◌&&◌, none, some, List, Dict, lookup,
  insert, erase, nat_key, text_key, member, discard, arith, contains-lookup, lookup-insert,
  lookup-erase, member-discard, discard-Distinct, length-discard-le, same_refl, nat_eq,
  erase-IsDict, insert-IsDict, Result, ok, if◌then◌else◌, ◌==◌,
}
use technicolor_haze_prism.Snat.{PortAllocation, SnatState, Connection, allocate_port, release_port}
use technicolor_haze_prism.Snat.Invariant.{PoolInv, Inv, Holds, Untracked, Inv-cases, store-Inv}
use technicolor_haze_prism.Snat.Allocate.{is_allocated, details, hint, Grants, allocate-Grants}

-- The state with another set and dict at one IP; the hint stays.
abbrev pub restore : String → List ℕ → Dict ℕ PortAllocation → SnatState → SnatState
restore ip set pool s = record s {
  allocated = insert ip set s.allocated;
  allocations = insert ip pool s.allocations;
}

module _ (s : SnatState) (ip : String) (set : List ℕ) (pool : Dict ℕ PortAllocation) where
  pub is_allocated-restore :
      (j : String) (q : ℕ)
      → is_allocated j q (restore ip set pool s)
        ≡ (if ip == j then member q set else is_allocated j q s)
  is_allocated-restore j q = ground (arith, lookup-insert ip j set s.allocated)

  pub details-restore :
      (j : String) (q : ℕ)
      → details j q (restore ip set pool s) ≡ (if ip == j then lookup q pool else details j q s)
  details-restore j q = ground (arith, lookup-insert ip j pool s.allocations)

  pub restore-Inv :
      (n : ℕ)
      → Inv s
      → lookup ip s.next_port ≡ some n
      → PoolInv s.pool_size set pool n
      → Inv (restore ip set pool s)
  restore-Inv n inv at sound = record {
    bounded = inv.bounded;
    unique_ips = insert-IsDict ip pool s.allocations inv.unique_ips;
    tracked = λ j. ground (
      arith,
      (store-Inv s ip set pool n inv sound).tracked j,
      lookup-insert ip j n s.next_port,
      text_key.same_iff ip j,
    );
  }

pub erase-PoolInv :
    (size : ℕ) (set : List ℕ) (pool : Dict ℕ PortAllocation) (n p : ℕ)
    → PoolInv size set pool n
    → PoolInv size (discard p set) (erase p pool) n
erase-PoolInv size set pool n p inv = record {
  distinct = discard-Distinct p set inv.distinct;
  fits = omega (arith, length-discard-le p set, inv.fits);
  in_pool = λ q h. ground (arith, member-discard p q set, inv.in_pool q);
  hint_ok = inv.hint_ok;
  recorded = λ q. ground (
    arith,
    contains-lookup q (erase p pool),
    lookup-erase p q pool,
    contains-lookup q pool,
    member-discard p q set,
    inv.recorded q,
  );
  unique = erase-IsDict p pool inv.unique;
  keyed = λ q a h. ground (arith, lookup-erase p q pool, inv.keyed q a);
}

-- What a release of an allocated port does.
pub record Releases (s : SnatState) (ip : String) (port : ℕ) (t : SnatState) : Type 0 where
  pub others :
      (j : String) (q : ℕ)
      → is_allocated j q t ≡ (if ip == j && nat_eq port q then false else is_allocated j q s)
  pub forgotten :
      (j : String) (q : ℕ)
      → details j q t ≡ (if ip == j && nat_eq port q then none else details j q s)
  pub same_hint : (j : String) → hint j t ≡ hint j s
  pub sound : Inv t

released :
    (s : SnatState) (ip : String) (set : List ℕ) (pool : Dict ℕ PortAllocation) (n port : ℕ)
    → Inv s
    → Holds s ip set pool n
    → Releases s ip port (restore ip (discard port set) (erase port pool) s)
released s ip set pool n port inv h = record {
  others = λ j q. ground (
    arith,
    is_allocated-restore s ip (discard port set) (erase port pool) j q,
    member-discard port q set,
    text_key.same_iff ip j,
  );
  forgotten = λ j q. ground (
    arith,
    details-restore s ip (discard port set) (erase port pool) j q,
    lookup-erase port q pool,
    text_key.same_iff ip j,
  );
  same_hint = λ j. refl;
  sound =
      restore-Inv s ip (discard port set) (erase port pool) n inv h.hint_at
        (erase-PoolInv s.pool_size set pool n port h.sound);
}

abbrev pub ReleaseAnswer : SnatState → String → ℕ → Bool → Result Bool × SnatState → Type 0
ReleaseAnswer s ip port true (r, t) = (r ≡ ok true) × Releases s ip port t
ReleaseAnswer s ip port false (r, t) = (r ≡ ok false) × (t ≡ s)

release-Untracked :
    (s : SnatState) (ip : String) (port : ℕ)
    → Untracked s ip
    → ReleaseAnswer s ip port (is_allocated ip port s) (release_port ip port s)
unfolding release_port member
release-Untracked s ip port u =
    let free : is_allocated ip port s ≡ false = ground arith in
    let eq : release_port ip port s ≡ (ok false, s) = ground arith in rw (free, eq) (refl, refl)

release_tracked :
    (s : SnatState) (ip : String) (set : List ℕ) (pool : Dict ℕ PortAllocation) (n port : ℕ)
    → Inv s
    → Holds s ip set pool n
    → (b : Bool) → member port set ≡ b
    → ReleaseAnswer s ip port b (release_port ip port s)
unfolding release_port
release_tracked s ip set pool n port inv h true e =
    let eq : release_port ip port s ≡ (ok true, restore ip (discard port set) (erase port pool) s) =
      ground arith in
    rw eq (refl, released s ip set pool n port inv h)
release_tracked s ip set pool n port inv h false e =
    let eq : release_port ip port s ≡ (ok false, s) = ground arith in rw eq (refl, refl)

-- Releasing an allocated port answers True, frees that port and forgets its connection, changes no
-- other port or IP and no hint, and keeps the invariant. Releasing any other port answers False and
-- changes nothing.
pub release_port-answer :
    (s : SnatState) (ip : String) (port : ℕ)
    → Inv s
    → ReleaseAnswer s ip port (is_allocated ip port s) (release_port ip port s)
release_port-answer s ip port inv = elim (Inv-cases s ip inv) [
  | inl u ↦ release-Untracked s ip port u
  | inr (set, pool, n, h) ↦
      release_tracked s ip set pool n port inv h (is_allocated ip port s) (ground arith)
]

-- A free port has no connection on record.
details_of_free :
    (s : SnatState) (ip : String) (port : ℕ)
    → Inv s
    → is_allocated ip port s ≡ false
    → details ip port s ≡ none
details_of_free s ip port inv e = elim (Inv-cases s ip inv) [
  | inl u ↦ ground (arith, u.no_pool)
  | inr (set, pool, n, h) ↦
      ground (arith, h.sound.recorded port, contains-lookup port pool, h.set_at, h.pool_at)
]

-- Releasing the port that `allocate_port` returned succeeds and leaves every port of every IP as it
-- was before the grant, in use or not and for the same connection.
pub release-allocate :
    (s : SnatState) (ip : String) (c : Connection) (now port : ℕ) (t : SnatState)
    → Inv s
    → allocate_port ip c now s ≡ (ok (some port), t)
    → let (r, u) = release_port ip port t in
      (r ≡ ok true)
      × ((j : String) (q : ℕ)
          → (is_allocated j q u ≡ is_allocated j q s) × (details j q u ≡ details j q s))
release-allocate s ip c now port t inv e =
    let (g, sound) = allocate-Grants s ip c now port t inv e in
    let allocated : is_allocated ip port t ≡ true =
      ground (arith, g.others ip port, same_refl ip) in
    let (yes_released, freed) =
      subst (λ b. ReleaseAnswer t ip port b (release_port ip port t)) allocated
        (release_port-answer t ip port sound) in
    (yes_released, λ j q. (back j q g freed, forget j q g freed))
  where
    back :
        (j : String) (q : ℕ)
        → Grants s ip c now t port
        → Releases t ip port (release_port ip port t).1
        → is_allocated j q (release_port ip port t).1 ≡ is_allocated j q s
    back j q g f = ground (arith, f.others j q, g.others j q, g.free, text_key.same_iff ip j)

    forget :
        (j : String) (q : ℕ)
        → Grants s ip c now t port
        → Releases t ip port (release_port ip port t).1
        → details j q (release_port ip port t).1 ≡ details j q s
    forget j q g f = ground (
      arith,
      f.forgotten j q,
      g.recorded j q,
      details_of_free s ip port inv g.free,
      text_key.same_iff ip j,
    )
