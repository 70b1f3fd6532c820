-- ===== src/Nsid/Slots.antt =====
-- When the table of the NSID manager is well formed, and what the replacement of a slot does.
use pico2w_tfm.Common.{
  ℕ, true, false, some, [], ◌∷◌, ◌==◌, ◌≡◌, ◌⊎◌, inl, inr, All, arith, refl, Bool-cases,
  Option-cases, length,
}
use pico2w_tfm.Common.Int.{pos, ltb_ℤ}
use mathlib.Core.Path.{subst}
use pico2w_tfm.Nsid.Manager.{Entry, Table, thread_num_max, replace_first, find_nsid}

abbrev pub Absent : ℕ → Table → Type 0
Absent token t = All (λ e. (e.token == token) ≡ false) t

module _ (invalid_token : ℕ) where
  -- A slot is free, or holds a token and a negative NSID.
  abbrev pub IsSlot : Entry → Type 0
  IsSlot e =
      ((e.token ≡ invalid_token) × (e.nsid ≡ pos 0))
      ⊎ (((e.token == invalid_token) ≡ false) × (ltb_ℤ e.nsid (pos 0) ≡ true))

  -- No token stands in two slots.
  abbrev pub Distinct : Table → Type 0
  Distinct [] = Unit
  Distinct (e ∷ t) = ((e.token ≡ invalid_token) ⊎ Absent e.token t) × Distinct t

  pub record IsValid (t : Table) : Type 0 where
    pub size : length t ≡ thread_num_max
    pub slots : All IsSlot t
    pub distinct : Distinct t

  -- The first entry with the token `old` gives way to `new`.
  pub data Replaced (old : ℕ) (new : Entry) : Table → Table → Type 0 where
    here : (e : Entry) (t : Table) → e.token ≡ old → Replaced old new (e ∷ t) (new ∷ t)
    there :
        (e : Entry) (t t' : Table)
        → (e.token == old) ≡ false
        → Replaced old new t t'
        → Replaced old new (e ∷ t) (e ∷ t')

  pub replace_first-Replaced :
      (old : ℕ) (new : Entry) (t t' : Table)
      → replace_first invalid_token old new t ≡ some t'
      → Replaced old new t t'
  unfolding replace_first
  replace_first-Replaced old new [] t' h = absurd (cc h)
  replace_first-Replaced old new (e ∷ t) t' h = elim (Bool-cases (e.token == old)) [
    | inl yes' ↦ (let same : t' ≡ new ∷ t = ground arith in rw same (here e t (ground arith)))
    | inr no' ↦ elim (Option-cases (replace_first invalid_token old new t)) [
      | inl none' ↦ absurd (ground arith)
      | inr (u, some') ↦
          (let same : t' ≡ e ∷ u = ground arith in
            rw same (there e t u no' (replace_first-Replaced old new t u some')))
    ]
  ]

  pub Absent-find : (k : ℕ) (t : Table) → Absent k t → find_nsid invalid_token k t ≡ pos 0
  unfolding find_nsid
  Absent-find k [] h = refl
  Absent-find k (e ∷ t) h = ground (arith, Absent-find k t)

  pub find-Absent :
      (k : ℕ) (t : Table)
      → (k == invalid_token) ≡ false
      → All IsSlot t
      → find_nsid invalid_token k t ≡ pos 0
      → Absent k t
  unfolding find_nsid
  find-Absent k [] n s h = tt
  find-Absent k (e ∷ t) n s h = ground (arith, find-Absent k t)

  -- What a replacement does to a query.
  pub Replaced-find_other :
      {old : ℕ} {new : Entry} {t t' : Table} (k : ℕ)
      → (k == old) ≡ false
      → (k == new.token) ≡ false
      → Replaced old new t t'
      → find_nsid invalid_token k t' ≡ find_nsid invalid_token k t
  unfolding find_nsid
  Replaced-find_other k a b (here e t h) = ground arith
  Replaced-find_other k a b (there e t t' h r) = ground (arith, Replaced-find_other k a b r)

  pub Replaced-find_new :
      {old : ℕ} {new : Entry} {t t' : Table}
      → Replaced old new t t'
      → Absent new.token t
      → find_nsid invalid_token new.token t' ≡ new.nsid
  unfolding find_nsid
  Replaced-find_new (here e t h) absent = ground arith
  Replaced-find_new (there e t t' h r) (absent, more) = ground (arith, Replaced-find_new r more)

  pub Replaced-length :
      {old : ℕ} {new : Entry} {t t' : Table} → Replaced old new t t' → length t' ≡ length t
  Replaced-length (here e t h) = refl
  Replaced-length (there e t t' h r) = omega (arith, Replaced-length r)

  pub Replaced-slots :
      {old : ℕ} {new : Entry} {t t' : Table}
      → Replaced old new t t'
      → IsSlot new
      → All IsSlot t
      → All IsSlot t'
  Replaced-slots (here e t h) n (s, ss) = (n, ss)
  Replaced-slots (there e t t' h r) n (s, ss) = (s, Replaced-slots r n ss)

  pub Replaced-Absent :
      {old : ℕ} {new : Entry} {t t' : Table} (k : ℕ)
      → Replaced old new t t'
      → (new.token == k) ≡ false
      → Absent k t
      → Absent k t'
  Replaced-Absent k (here e t h) n (a, more) = (n, more)
  Replaced-Absent k (there e t t' h r) n (a, more) = (a, Replaced-Absent k r n more)

  -- Removal: the token is in no slot any more.
  pub Replaced-removed :
      {old : ℕ} {new : Entry} {t t' : Table}
      → Replaced old new t t'
      → (old == invalid_token) ≡ false
      → (new.token == old) ≡ false
      → Distinct t
      → Absent old t'
  Replaced-removed (here e t h) n m (inl free, d) = absurd (ground arith)
  Replaced-removed (here e t h) n m (inr absent, d) = (m, subst (λ k. Absent k t) h absent)
  Replaced-removed (there e t t' h r) n m (d, ds) = (h, Replaced-removed r n m ds)

  pub Replaced-Distinct_free :
      {old : ℕ} {new : Entry} {t t' : Table}
      → Replaced old new t t'
      → new.token ≡ invalid_token
      → Distinct t
      → Distinct t'
  Replaced-Distinct_free (here e t h) n (d, ds) = (inl n, ds)
  Replaced-Distinct_free (there e t t' h r) n (inl free, ds) =
      (inl free, Replaced-Distinct_free r n ds)
  Replaced-Distinct_free {old} {new} (there e t t' h r) n (inr a, ds) =
      elim (Bool-cases (e.token == invalid_token)) [
        | inl free ↦ (inl (ground arith), Replaced-Distinct_free r n ds)
        | inr used ↦
            (inr (Replaced-Absent e.token r (ground arith) a), Replaced-Distinct_free r n ds)
      ]

  pub Replaced-Distinct_new :
      {old : ℕ} {new : Entry} {t t' : Table}
      → Replaced old new t t'
      → Absent new.token t
      → Distinct t
      → Distinct t'
  Replaced-Distinct_new (here e t h) (a, more) (d, ds) = (inr more, ds)
  Replaced-Distinct_new (there e t t' h r) (a, more) (inl free, ds) =
      (inl free, Replaced-Distinct_new r more ds)
  Replaced-Distinct_new {old} {new} (there e t t' h r) (a, more) (inr b, ds) =
      (inr (Replaced-Absent e.token r (ground arith) b), Replaced-Distinct_new r more ds)
