-- ===== src/Nat/Invariant.antt =====
-- The invariant of the NAT dicts: the index and the entries are inverse to one another.
use technicolor_haze_prism.Base.{
  ◌≡◌, ◌∙◌, inl, inr, String, false, none, some, [], ◌∷◌, text_key, if◌then◌else◌, ◌==◌, lookup,
  insert, lookup-insert, lookup-insert_self, lookup-erase, lookup-drop_where, drop_where-IsDict,
  insert-IsDict, erase-IsDict, IsDict, eq_of_same, Option-cases, Bool-cases, arith, join_bars,
  text_or_empty,
}
use technicolor_haze_prism.Nat.{NatEntry, NatState, snat_signature, port_text}
use technicolor_haze_prism.Nat.Operations.{find_existing_nat, register, forget}

-- The text that the signature of an entry hashes, read off the entry.
unfoldable pub entry_signature : NatEntry → String
unfolding snat_signature port_text text_or_empty
entry_signature e =
    if e.type == "snat"
    then snat_signature e.private_ip e.public_ip
    else join_bars (
        e.type
        ∷ e.public_ip
        ∷ port_text e.public_port
        ∷ e.private_ip
        ∷ port_text e.private_port
        ∷ text_or_empty e.protocol
        ∷ [])

module _ {W : Type 0} (digest : String → String) where
  pub record Inv (s : NatState W) : Type 0 where
    pub named :
        (id : String) (e : NatEntry)
        → lookup id s.nat_db ≡ some e
        → (e.id ≡ id) × ((id == "") ≡ false)
    pub indexed :
        (id : String) (e : NatEntry)
        → lookup id s.nat_db ≡ some e
        → lookup (digest (entry_signature e)) s.signature_index ≡ some id
    pub live :
        (hash id : String)
        → lookup hash s.signature_index ≡ some id
        → (e : NatEntry) × (lookup id s.nat_db ≡ some e) × (digest (entry_signature e) ≡ hash)
    pub unique : IsDict s.nat_db
    pub unique_hashes : IsDict s.signature_index

  -- Where no live entry is found, the index has nothing at the hash.
  pub not_indexed :
      (s : NatState W) (hash : String)
      → Inv s
      → find_existing_nat hash s ≡ none
      → lookup hash s.signature_index ≡ none
  unfolding find_existing_nat
  not_indexed s hash inv e = elim (Option-cases (lookup hash s.signature_index)) [
    | inl free ↦ free
    | inr (id, at) ↦
        let (entry, found, same) = inv.live hash id at in
        absurd (ground (arith, inv.named id entry found))
  ]

  -- A rule under a new id, of a signature that no live rule has, keeps the invariant.
  pub register-Inv :
      (s : NatState W) (hash : String) (e : NatEntry)
      → Inv s
      → find_existing_nat hash s ≡ none
      → lookup e.id s.nat_db ≡ none
      → (e.id == "") ≡ false
      → digest (entry_signature e) ≡ hash
      → Inv (register hash e s)
  unfolding register
  register-Inv s hash e inv new fresh name sig = record {
    named = λ id a h.
        ground (
          arith,
          lookup-insert e.id id e s.nat_db,
          text_key.same_iff e.id id,
          inv.named id a,
          name,
        );
    indexed = λ id a h. ground (
      arith,
      lookup-insert e.id id e s.nat_db,
      lookup-insert hash (digest (entry_signature a)) e.id s.signature_index,
      text_key.same_iff e.id id,
      text_key.same_iff hash (digest (entry_signature a)),
      not_indexed s hash inv new,
      inv.indexed id a,
      sig,
    );
    live = λ g id h. elim (Bool-cases (hash == g)) [
      | inl here ↦ (
        e,
        ground (
          arith,
          lookup-insert hash g e.id s.signature_index,
          lookup-insert_self e.id e s.nat_db,
        ),
        sig ∙ eq_of_same hash g here,
      )
      | inr other ↦ old g id (ground (arith, lookup-insert hash g e.id s.signature_index))
    ];
    unique = insert-IsDict e.id e s.nat_db inv.unique;
    unique_hashes = insert-IsDict hash e.id s.signature_index inv.unique_hashes;
  }
    where
      old :
          (g id : String)
          → lookup g s.signature_index ≡ some id
          → (a : NatEntry) × (lookup id (insert e.id e s.nat_db) ≡ some a)
            × (digest (entry_signature a) ≡ g)
      old g id at =
          let (a, found, same) = inv.live g id at in
          (
            a,
            ground (arith, lookup-insert e.id id e s.nat_db, text_key.same_iff e.id id, fresh),
            same,
          )

  pub forget-Inv : (s : NatState W) (id : String) → Inv s → Inv (forget id s)
  unfolding forget
  forget-Inv s id inv = record {
    named = λ j a h. ground (arith, lookup-erase id j s.nat_db, inv.named j a);
    indexed = λ j a h. ground (
      arith,
      lookup-erase id j s.nat_db,
      inv.indexed j a,
      text_key.same_iff j id,
      text_key.same_iff id j,
      lookup-drop_where (λ k. k == id) (digest (entry_signature a)) s.signature_index
          inv.unique_hashes,
    );
    live = λ g j h.
        let kept : (lookup g s.signature_index ≡ some j) × ((j == id) ≡ false) = ground (
          arith,
          lookup-drop_where (λ k. k == id) g s.signature_index inv.unique_hashes,
          Option-cases (lookup g s.signature_index),
        ) in
        let (a, found, same) = inv.live g j kept.0 in
        (
          a,
          ground
              (arith, lookup-erase id j s.nat_db, text_key.same_iff j id, text_key.same_iff id j),
          same,
        );
    unique = erase-IsDict id s.nat_db inv.unique;
    unique_hashes = drop_where-IsDict (λ k. k == id) s.signature_index inv.unique_hashes;
  }
