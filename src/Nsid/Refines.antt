-- ===== src/Nsid/Refines.antt =====
-- The table of the NSID manager is a finite map from tokens to NSIDs.
use pico2w_tfm.Common.{
  ℕ, true, false, none, [], ◌∷◌, ◌==◌, if◌then◌else◌, replicate, ◌≡◌, ◌≢◌, ◌↔◌, inl, inr, arith,
  refl, Bool-cases, Option-cases, ◌∙◌,
}
use pico2w_tfm.Common.Int.{ℤ, pos, ltb_ℤ}
use pico2w_tfm.Nsid.Manager.{
  Entry, Table, err_success, err_no_free_entry, free_entry, nsid_mgr_init, replace_first,
  nsid_mgr_add_entry, nsid_mgr_remove_entry, nsid_mgr_query_nsid,
}
use pico2w_tfm.Nsid.Slots.{
  Absent, IsValid, Replaced, replace_first-Replaced, Absent-find, find-Absent, Replaced-find_other,
  Replaced-find_new, Replaced-length, Replaced-slots, Replaced-removed, Replaced-Distinct_free,
  Replaced-Distinct_new,
}

module _ (invalid_token : ℕ) where
  -- After the initialisation the table is well formed, and every token has the invalid NSID.
  pub nsid_mgr_init-IsValid :
      IsValid invalid_token (nsid_mgr_init invalid_token).1
      × ((k : ℕ) → nsid_mgr_query_nsid invalid_token k (nsid_mgr_init invalid_token).1 ≡ pos 0)
  unfolding nsid_mgr_init nsid_mgr_query_nsid
  nsid_mgr_init-IsValid = (
    record { size = refl; slots = ground arith; distinct = ground arith },
    λ k. ground (arith, Absent-find invalid_token k (replicate 10 (free_entry invalid_token))),
  )

  -- A successful addition has replaced a free slot.
  pub add-Replaced :
      (nsid : ℤ) (token : ℕ) (t : Table)
      → (nsid_mgr_add_entry invalid_token nsid token t).0 ≡ err_success
      → (ltb_ℤ nsid (pos 0) ≡ true)
        × ((token == invalid_token) ≡ false)
        × Replaced invalid_token invalid_token
            (record { token = token; nsid = nsid })
            t
            (nsid_mgr_add_entry invalid_token nsid token t).1
  unfolding nsid_mgr_add_entry
  add-Replaced nsid token t h =
      let new : Entry = record { token = token; nsid = nsid } in
      elim (Bool-cases (ltb_ℤ nsid (pos 0))) [
        | inr bad ↦ absurd (ground arith)
        | inl negative ↦ elim (Bool-cases (token == invalid_token)) [
          | inl bad ↦ absurd (ground arith)
          | inr fine ↦ elim (Option-cases (replace_first invalid_token invalid_token new t)) [
            | inl full ↦ absurd (ground arith)
            | inr (u, e) ↦ (
              negative,
              fine,
              rw (negative, fine, e) (replace_first-Replaced invalid_token invalid_token new t u e),
            )
          ]
        ]
      ]

  -- In a well-formed table, adding a token that has no NSID yet, if it succeeds, keeps the table
  -- well formed, gives the token its NSID, and leaves the NSID of every other token.
  pub nsid_mgr_add_entry_lem :
      (nsid : ℤ) (token : ℕ) (t : Table)
      → IsValid invalid_token t
      → nsid_mgr_query_nsid invalid_token token t ≡ pos 0
      → (nsid_mgr_add_entry invalid_token nsid token t).0 ≡ err_success
      → let t' = (nsid_mgr_add_entry invalid_token nsid token t).1 in
        IsValid invalid_token t'
        × ((k : ℕ)
            → nsid_mgr_query_nsid invalid_token k t'
              ≡ (if k == token then nsid else nsid_mgr_query_nsid invalid_token k t))
  unfolding nsid_mgr_query_nsid
  nsid_mgr_add_entry_lem nsid token t v fresh h =
      let (negative, fine, r) = add-Replaced nsid token t h in
      let absent : Absent token t =
        find-Absent invalid_token token t fine v.slots (rw fine at fresh) in
      (
        record {
          size = Replaced-length invalid_token r ∙ v.size;
          slots = Replaced-slots invalid_token r (inr (fine, negative)) v.slots;
          distinct = Replaced-Distinct_new invalid_token r absent v.distinct;
        },
        λ k. elim (Bool-cases (k == invalid_token)) [
          | inl bad ↦ ground arith
          | inr used ↦ elim (Bool-cases (k == token)) [
            | inl same ↦ ground (arith, Replaced-find_new invalid_token r absent)
            | inr other' ↦ ground (arith, Replaced-find_other invalid_token k used other' r)
          ]
        ],
      )

  remove-Replaced :
      (token : ℕ) (t : Table)
      → (nsid_mgr_remove_entry invalid_token token t).0 ≡ err_success
      → ((token == invalid_token) ≡ false)
        × Replaced invalid_token token
            (free_entry invalid_token)
            t
            (nsid_mgr_remove_entry invalid_token token t).1
  unfolding nsid_mgr_remove_entry
  remove-Replaced token t h =
      let new = free_entry invalid_token in
      elim (Bool-cases (token == invalid_token)) [
        | inl bad ↦ absurd (ground arith)
        | inr fine ↦ elim (Option-cases (replace_first invalid_token token new t)) [
          | inl unknown ↦ absurd (ground arith)
          | inr (u, e) ↦ (fine, rw (fine, e) (replace_first-Replaced invalid_token token new t u e))
        ]
      ]

  -- In a well-formed table, a successful removal keeps the table well formed, gives the token the
  -- invalid NSID, and leaves the NSID of every other token.
  pub nsid_mgr_remove_entry_lem :
      (token : ℕ) (t : Table)
      → IsValid invalid_token t
      → (nsid_mgr_remove_entry invalid_token token t).0 ≡ err_success
      → let t' = (nsid_mgr_remove_entry invalid_token token t).1 in
        IsValid invalid_token t'
        × ((k : ℕ)
            → nsid_mgr_query_nsid invalid_token k t'
              ≡ (if k == token then pos 0 else nsid_mgr_query_nsid invalid_token k t))
  unfolding nsid_mgr_query_nsid
  nsid_mgr_remove_entry_lem token t v h =
      let (fine, r) = remove-Replaced token t h in
      let gone : Absent token (nsid_mgr_remove_entry invalid_token token t).1 =
        Replaced-removed invalid_token r fine (ground arith) v.distinct in
      (
        record {
          size = Replaced-length invalid_token r ∙ v.size;
          slots = Replaced-slots invalid_token r (inl (refl, refl)) v.slots;
          distinct = Replaced-Distinct_free invalid_token r refl v.distinct;
        },
        λ k. elim (Bool-cases (k == invalid_token)) [
          | inl bad ↦ ground arith
          | inr used ↦ elim (Bool-cases (k == token)) [
            | inl same ↦ ground (
              arith,
              Absent-find invalid_token token (nsid_mgr_remove_entry invalid_token token t).1 gone,
            )
            | inr other' ↦
                ground (arith, Replaced-find_other invalid_token k other' (ground arith) r)
          ]
        ],
      )

  replace_first-none_iff :
      (old : ℕ) (new : Entry) (t : Table)
      → (replace_first invalid_token old new t ≡ none) ↔ Absent old t
  unfolding replace_first
  replace_first-none_iff old new [] = ground arith
  replace_first-none_iff old new (e ∷ t) =
      elim (Option-cases (replace_first invalid_token old new t)) [
        | inl none' ↦ ground (arith, replace_first-none_iff old new t)
        | inr (u, some') ↦ ground (arith, replace_first-none_iff old new t)
      ]

  -- The entry of a valid NSID and token is refused exactly if no slot is free.
  pub nsid_mgr_add_entry_full_iff :
      (nsid : ℤ) (token : ℕ) (t : Table)
      → ltb_ℤ nsid (pos 0) ≡ true
      → token ≢ invalid_token
      → ((nsid_mgr_add_entry invalid_token nsid token t).0 ≡ err_no_free_entry)
        ↔ Absent invalid_token t
  unfolding nsid_mgr_add_entry
  nsid_mgr_add_entry_full_iff nsid token t negative valid =
      let new : Entry = record { token = token; nsid = nsid } in
      let none_iff = replace_first-none_iff invalid_token new t in
      elim (Option-cases (replace_first invalid_token invalid_token new t)) [
        | inl full ↦ ground arith
        | inr (u, e) ↦ ground arith
      ]
