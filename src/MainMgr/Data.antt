-- ===== src/MainMgr/Data.antt =====
-- The DATA command of src/main_mgr.c
use agility_contest_serial_c.Base.{
  ℕ, ◌≡◌, refl, ◌⊎◌, inl, inr, true, none, some, List, [], ◌∷◌, ◌++◌, if◌then◌else◌, pos, ◌≤ℤ◌,
  ◌+ℤ◌, ◌-ℤ◌, ltb_ℤ, eqb_ℤ, IsInt, wrap32_eq, int_laws, -ℤ_parts, arith, done, fault, Text, strchr,
  atoi, ==_iff,
}
use agility_contest_serial_c.Tokens.{Tokens, ntokens, arg}
use agility_contest_serial_c.MainMgr.{Main, int_sub, main_mgr_data, cut_colon}
use agility_contest_serial_c.Config.{Status}
use agility_contest_serial_c.MainMgr.Valid.{IsValid}
use agility_contest_serial_c.Tools.Explode.{IsToken}

abbrev colon : ℕ
colon = b':'

strchr-append : (t s : Text) (c : ℕ) → IsToken c t → strchr (t ++ c ∷ s) c ≡ some (t, s)
unfolding strchr
strchr-append [] s c h = rw ((==_iff c c).1 refl)
strchr-append (d ∷ t) s c h = ground (arith, strchr-append t s c)

cut_colon-append : (t s : Text) → IsToken colon t → cut_colon (t ++ colon ∷ s) ≡ done (t, s)
unfolding cut_colon
cut_colon-append t s h = rw (strchr-append t s colon h, cut_colon)

strchr-none : (t : Text) (c : ℕ) → IsToken c t → strchr t c ≡ none
unfolding strchr
strchr-none [] c h = refl
strchr-none (d ∷ t) c h = ground (arith, strchr-none t c)

cut_colon-none : (t : Text) → IsToken colon t → cut_colon t ≡ fault
unfolding cut_colon
cut_colon-none t h = rw (strchr-none t colon h, cut_colon)

abbrev data_status : Main → Text → Text → Text → Status
data_status m f r e = record m.status {
  faults = int_sub (atoi f) m.status.touchs;
  refusals = atoi r;
  eliminated = if eqb_ℤ (atoi e) (pos 0) then pos 0 else pos 1;
}

abbrev pub after_data : Main → Text → Text → Text → Main
after_data m f r e = record m { config = record m.config { status = data_status m f r e } }

module _ (m : Main) (t : Tokens) (f r e : Text) (rest : List Text) where
  -- DATA f:r:e, where f and r hold no colon, sets the faults to f less the touches, the refusals to
  -- r, and the elimination to whether e is not 0; nothing is clamped, and nothing else changes.
  pub main_mgr_data_lem :
      t.args ≡ (f ++ colon ∷ (r ++ colon ∷ e)) ∷ rest
      → IsToken colon f
      → IsToken colon r
      → main_mgr_data m t (ntokens t) ≡ done (pos 0, after_data m f r e)
  unfolding main_mgr_data arg
  main_mgr_data_lem args hf hr =
      rw (args, cut_colon-append f (r ++ colon ∷ e) hf, cut_colon-append r e hr) (ground arith)

module _ (m : Main) (t : Tokens) (f r : Text) (rest : List Text) (hf : IsToken colon f) where
  -- A DATA command whose third token holds no colon, or only one, writes through a null pointer.
  pub main_mgr_data-fault :
      IsToken colon r
      → (t.args ≡ f ∷ rest) ⊎ (t.args ≡ (f ++ colon ∷ r) ∷ rest)
      → main_mgr_data m t (ntokens t) ≡ fault
  unfolding main_mgr_data arg
  main_mgr_data-fault hr (inl args) = rw (args, cut_colon-none f hf) (ground arith)
  main_mgr_data-fault hr (inr args) =
      rw (args, cut_colon-append f r hf, cut_colon-none r hr) (ground arith)

after_data-total :
    (m : Main) (f r e : Text)
    → IsInt (atoi f -ℤ m.status.touchs)
    → (after_data m f r e).status.faults +ℤ m.status.touchs ≡ atoi f
after_data-total m f r e h = rw (wrap32_eq (atoi f -ℤ m.status.touchs) h) (omega int_laws)

after_data-not_IsValid :
    (m : Main) (f r e : Text)
    → IsInt (atoi f -ℤ m.status.touchs)
    → ltb_ℤ (atoi f) m.status.touchs ≡ true
    → ¬ IsValid (after_data m f r e)
after_data-not_IsValid m f r e h less v =
    let same = wrap32_eq (atoi f -ℤ m.status.touchs) h in
    let kept : pos 0 ≤ℤ atoi f -ℤ m.status.touchs = (rw same at v.faults) in
    ground (arith, -ℤ_parts (atoi f) m.status.touchs)

module _ (m : Main) (t : Tokens) (f r e : Text) (rest : List Text)
    (args : t.args ≡ (f ++ colon ∷ (r ++ colon ∷ e)) ∷ rest) (hf : IsToken colon f)
    (hr : IsToken colon r) (in_range : IsInt (atoi f -ℤ m.status.touchs)) where
  -- After DATA f:r:e the faults of the run and its touches add up to f, if their difference is in the
  -- range of int.
  pub main_mgr_data-total :
      (m' : Main) × (main_mgr_data m t (ntokens t) ≡ done (pos 0, m'))
      × (m'.status.faults +ℤ m'.status.touchs ≡ atoi f)
  main_mgr_data-total = (
    after_data m f r e,
    main_mgr_data_lem m t f r e rest args hf hr,
    after_data-total m f r e in_range,
  )

  -- DATA with fewer faults than the run has touches leaves a negative count: the state behind it is not
  -- one whose counters are in range.
  pub main_mgr_data-not_IsValid :
      ltb_ℤ (atoi f) m.status.touchs ≡ true
      → (m' : Main) × (main_mgr_data m t (ntokens t) ≡ done (pos 0, m')) × (¬ IsValid m')
  main_mgr_data-not_IsValid less = (
    after_data m f r e,
    main_mgr_data_lem m t f r e rest args hf hr,
    after_data-not_IsValid m f r e in_range less,
  )
