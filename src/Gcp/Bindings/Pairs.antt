-- ===== src/Gcp/Bindings/Pairs.antt =====
-- Which members hold which roles in the bindings that internal/cloud/gcp/helpers.go computes.
use vedro.Prelude.{
  String, Bool, true, not, ◌==◌, ◌&&◌, ◌||◌, ◌≡◌, refl, sym, ap, ◌∙◌, Option, none, some, List, [],
  ◌∷◌, ◌++◌, contains, eq_iff, arith, Bool-cases, inl, inr, if◌then◌else◌,
}
use vedro.Gcp.Iam.{Binding}
use vedro.Gcp.Bindings.{
  has_member, cons_granted, granted_bindings, without_member, keep_binding, remaining_bindings,
}

module _ (role member : String) where
  -- The role and the member are those of the call.
  abbrev pub is_pair : String → String → Bool
  is_pair r m = role == r && member == m

  module _ (r m : String) where
    contains-append :
        (xs : List String) (y : String) → contains (xs ++ (y ∷ [])) m ≡ (contains xs m || y == m)
    unfolding contains
    contains-append [] y = ground arith
    contains-append (x ∷ xs) y = ground (arith, contains-append xs y)

    -- The answer for the members of a role in a first binding and the rest.
    abbrev first_or : Binding → Bool → Bool
    first_or b rest =
        if not (b.role == r) then rest else if contains b.members m then true else rest

    appended-first :
        (b : Binding) (rest : Bool)
        → (b.role == role) ≡ true
        → first_or (record b { members = b.members ++ (member ∷ []) }) rest
          ≡ (first_or b rest || is_pair r m)
    appended-first b rest same = ground (
      arith,
      same,
      contains-append b.members member,
      eq_iff b.role role,
      eq_iff b.role r,
      eq_iff role r,
    )

    other-granted :
        (b : Binding) (bs changed : List Binding) (rest : Option (List Binding))
        → granted_bindings role member bs ≡ rest
        → cons_granted b rest ≡ some changed
        → ((c : List Binding)
            → granted_bindings role member bs ≡ some c
            → has_member r m c ≡ (has_member r m bs || is_pair r m))
        → has_member r m changed ≡ (has_member r m (b ∷ bs) || is_pair r m)
    unfolding has_member
    other-granted b bs changed none same e each = cc e
    other-granted b bs changed (some c) same e each =
        let whole : (b ∷ c) ≡ changed = cc e in rw (sym whole) (ground (arith, each c same))

    pub has-granted :
        (bs changed : List Binding)
        → granted_bindings role member bs ≡ some changed
        → has_member r m changed ≡ (has_member r m bs || is_pair r m)
    unfolding granted_bindings has_member contains
    has-granted [] changed e =
        let whole : (record { role = role; members = member ∷ []; condition = none } ∷ [])
            ≡ changed =
          cc e in
        rw (sym whole) (ground arith)
    has-granted (b ∷ bs) changed e = elim (Bool-cases (b.role == role)) [
      | inr other ↦
          other-granted b bs changed (granted_bindings role member bs) refl (rw other at e)
            (has-granted bs)
      | inl same ↦ elim (Bool-cases (contains b.members member)) [
        | inl held ↦ absurd (cc (rw (same, held) at e))
        | inr missing ↦
            let whole : (record b { members = b.members ++ (member ∷ []) } ∷ bs) ≡ changed =
              cc (rw (same, missing) at e) in
            rw (sym whole) (appended-first b (has_member r m bs) same)
      ]
    ]

    other-held :
        (b : Binding) (bs : List Binding) (rest : Option (List Binding))
        → granted_bindings role member bs ≡ rest
        → cons_granted b rest ≡ none
        → granted_bindings role member bs ≡ none
    other-held b bs none same e = same
    other-held b bs (some c) same e = cc e

    pub has-held :
        (bs : List Binding)
        → granted_bindings role member bs ≡ none
        → has_member r m bs ≡ (has_member r m bs || is_pair r m)
    unfolding granted_bindings has_member
    has-held [] e = cc e
    has-held (b ∷ bs) e = elim (Bool-cases (b.role == role)) [
      | inr other ↦ ground (
        arith,
        has-held bs (other-held b bs (granted_bindings role member bs) refl (rw other at e)),
      )
      | inl same ↦ elim (Bool-cases (contains b.members member)) [
        | inl held ↦
            ground (
              arith,
              same,
              held,
              eq_iff b.role role,
              eq_iff b.role r,
              eq_iff role r,
              eq_iff member m,
            )
        | inr missing ↦ absurd (cc (rw (same, missing) at e))
      ]
    ]

    contains-without :
        (ms : List String)
        → contains (without_member member ms) m ≡ (contains ms m && not (member == m))
    unfolding without_member contains
    contains-without [] = refl
    contains-without (x ∷ ms) =
        ground (arith, contains-without ms, eq_iff x member, eq_iff x m, eq_iff member m)

    kept-first :
        (b : Binding) (ms : List String) (bs : List Binding) (before : Bool)
        → (b.role == role) ≡ true
        → has_member r m bs ≡ (before && not (is_pair r m))
        → without_member member b.members ≡ ms
        → has_member r m (keep_binding b ms bs) ≡ (first_or b before && not (is_pair r m))
    unfolding has_member contains
    kept-first b [] bs before same ih kept =
        let left : contains [] m ≡ (contains b.members m && not (member == m)) =
          sym (ap (λ l. contains l m) kept) ∙ contains-without b.members in
        ground (arith, left, ih, same, eq_iff b.role role, eq_iff b.role r, eq_iff role r)
    kept-first b (x ∷ ms) bs before same ih kept =
        let left : contains (x ∷ ms) m ≡ (contains b.members m && not (member == m)) =
          sym (ap (λ l. contains l m) kept) ∙ contains-without b.members in
        ground (arith, left, ih, same, eq_iff b.role role, eq_iff b.role r, eq_iff role r)

    pub has-remaining :
        (bs : List Binding)
        → has_member r m (remaining_bindings role member bs)
          ≡ (has_member r m bs && not (is_pair r m))
    unfolding remaining_bindings has_member
    has-remaining [] = refl
    has-remaining (b ∷ bs) =
        let ih = has-remaining bs in
        elim (Bool-cases (b.role == role)) [
          | inr other ↦
              rw other
                (ground (arith, ih, other, eq_iff b.role r, eq_iff b.role role, eq_iff role r))
          | inl same ↦ rw same (
              kept-first b (without_member member b.members) (remaining_bindings role member bs)
                (has_member r m bs) same ih refl)
        ]
