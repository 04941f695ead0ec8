-- ===== src/License/Key/Sums.antt =====
-- md5sum of src/license.c: the sum does not depend on the pieces that the text is handed over in.
use agility_contest_serial_c.Base.{
  ℕ, zero, suc, ◌≤◌, ◌≡◌, refl, ◌∙◌, ap, sym, [], ◌∷◌, ◌++◌, leb, Text, take, drop, take-drop,
  length-drop, length, Bool-cases, inl, inr, arith,
}
use agility_contest_serial_c.License.Key.{Md5, hex, update_all, md5sum}

empty : (s : Text) → length s ≡ 0 → s ≡ []
empty [] h = refl
empty (c ∷ s) h = absurd (omega arith)

-- MD5_Update of two pieces is one of both, and of nothing changes nothing.
pub record Streams {C : Type 0} (md5 : Md5 C) : Type 0 where
  pub update_nothing : (c : C) → md5.update c [] ≡ c
  pub update-update : (c : C) (s t : Text) → md5.update (md5.update c s) t ≡ md5.update c (s ++ t)

module _ {C : Type 0} (md5 : Md5 C) (streams : Streams md5) where
  update_all-whole :
      (fuel : ℕ) (c : C) (str : Text)
      → length str ≤ fuel
      → update_all md5 fuel c str ≡ md5.update c str
  unfolding update_all
  update_all-whole zero c str enough = rw (empty str (omega arith)) (sym (streams.update_nothing c))
  update_all-whole (suc fuel) c str enough = elim (Bool-cases (leb (length str) 0)) [
    | inl done ↦ rw done (rw (empty str (ground arith)) (sym (streams.update_nothing c)))
    | inr more ↦
        let shorter : length (drop 512 str) ≤ fuel = ground (arith, length-drop 512 str) in
        rw more (
          update_all-whole fuel (md5.update c (take 512 str)) (drop 512 str) shorter
          ∙ streams.update-update c (take 512 str) (drop 512 str)
          ∙ ap (md5.update c) (take-drop 512 str))
  ]

  -- md5sum prints the digest of the whole text, however long it is, if MD5 does not depend on the pieces it is
  -- given.
  pub md5sum-whole : (str : Text) → md5sum md5 str ≡ hex (md5.final (md5.update md5.init str))
  unfolding md5sum
  md5sum-whole str =
      ap (λ (c : C). hex (md5.final c)) (update_all-whole (length str) md5.init str (omega arith))
