-- ===== src/Intake/Quarantine/Laws.antt =====
-- intake/quarantine.py: what is blocked, and what a merge keeps.
use brain_flow.Prelude.{
  String, ◌≡◌, refl, sym, ◌∙◌, Bool, true, false, ◌||◌, List, [], ◌∷◌, ◌++◌, inl, inr, any,
  any-append, arith, str_eq, eq_iff, if_ind, Bool-cases,
}
use brain_flow.Prelude.Text.{codes, is_infix}
use brain_flow.Intake.Quarantine.{
  QuarantineResult, hard_executable_extensions, archive_script_extensions,
  macro_container_extensions, ooxml_macro_parts, in_list, extension, normal_name,
  quarantine_path_name, quarantine_archive_entry, clean, flag_macros, dedup_from, merge_one,
  merge_all, merge_quarantine,
}

module _ (to_lower : String → String) where
  abbrev has_macro_part : String → Bool
  has_macro_part lower = any (λ part. is_infix (codes part) (codes lower)) ooxml_macro_parts

  abbrev is_hard : String → Bool
  is_hard name = in_list hard_executable_extensions (extension (normal_name to_lower name))

  abbrev is_script : String → Bool
  is_script name = in_list archive_script_extensions (extension (normal_name to_lower name))

  or_left : (a b : Bool) → a ≡ true → true ≡ (a || b)
  or_left a b e = ground arith

  or_right : (a b c : Bool) → a ≡ false → b ≡ c → c ≡ (a || b)
  or_right a b c e f = ground arith

  flag_macros-blocked : (ext : String) → (flag_macros ext clean).blocked ≡ false
  flag_macros-blocked ext =
      if_ind (λ (r : QuarantineResult). r.blocked ≡ false) (in_list macro_container_extensions ext)
        (λ _. refl) (λ _. refl)

  path_name-blocked :
      (name : String)
      → (quarantine_path_name to_lower name).blocked
        ≡ (is_hard name || has_macro_part (normal_name to_lower name))
  unfolding quarantine_path_name
  path_name-blocked name =
      let parts = has_macro_part (normal_name to_lower name) in
      let expected = is_hard name || parts in
      if_ind (λ (r : QuarantineResult). r.blocked ≡ expected) (is_hard name)
        (λ hard. or_left (is_hard name) parts hard)
        λ soft.
          if_ind (λ (r : QuarantineResult). r.blocked ≡ expected) parts
            (λ macro. or_right (is_hard name) parts true soft macro)
            λ plain.
              flag_macros-blocked (extension (normal_name to_lower name))
              ∙ or_right (is_hard name) parts false soft plain

  -- A member of an archive is blocked exactly if its extension is that of an executable, if its name
  -- holds that of an Office macro part, or if its extension is that of a script.
  archive_entry-blocked :
      (name : String)
      → (quarantine_archive_entry to_lower name).blocked
        ≡ ((is_hard name || has_macro_part (normal_name to_lower name)) || is_script name)
  unfolding quarantine_archive_entry
  archive_entry-blocked name =
      let r = quarantine_path_name to_lower name in
      let before = is_hard name || has_macro_part (normal_name to_lower name) in
      let expected = before || is_script name in
      if_ind (λ (q : QuarantineResult). q.blocked ≡ expected) r.blocked
        (λ on. on ∙ or_left before (is_script name) (sym (path_name-blocked name) ∙ on))
        λ off.
          if_ind (λ (q : QuarantineResult). q.blocked ≡ expected) (is_script name)
            (λ script.
              or_right before (is_script name) true (sym (path_name-blocked name) ∙ off) script)
            λ plain.
              off
              ∙ or_right before (is_script name) false (sym (path_name-blocked name) ∙ off) plain

merge_all-blocked :
    (merged : QuarantineResult) (ps : List QuarantineResult)
    → (merge_all merged ps).blocked ≡ (merged.blocked || any (λ p. p.blocked) ps)
unfolding merge_all merge_one
merge_all-blocked merged [] = ground arith
merge_all-blocked merged (p ∷ ps) = merge_all-blocked (merge_one merged p) ps ∙ ground arith

-- A list without repetitions.
abbrev IsDistinct : List String → Type 0
IsDistinct [] = Unit
IsDistinct (x ∷ xs) = (in_list xs x ≡ false) × IsDistinct xs

IsDistinct-append :
    (xs : List String) (x : String)
    → IsDistinct xs
    → in_list xs x ≡ false
    → IsDistinct (xs ++ x ∷ [])
IsDistinct-append [] x d h = (refl, tt)
IsDistinct-append (y ∷ xs) x (p, d) h = (
  any-append (str_eq y) xs (x ∷ []) ∙ ground (arith, eq_iff x y, eq_iff y x, p, h),
  IsDistinct-append xs x d (ground (arith, h)),
)

dedup_from-IsDistinct : (seen xs : List String) → IsDistinct seen → IsDistinct (dedup_from seen xs)
unfolding dedup_from
dedup_from-IsDistinct seen [] d = d
dedup_from-IsDistinct seen (x ∷ xs) d = elim (Bool-cases (in_list seen x)) [
  | inl old ↦ rw old (dedup_from-IsDistinct seen xs d)
  | inr new ↦ rw new (dedup_from-IsDistinct (seen ++ x ∷ []) xs (IsDistinct-append seen x d new))
]

-- A merge is blocked exactly if one of its parts is, and it names each action and each flag once.
merge_quarantine_lem :
    (parts : List QuarantineResult)
    → ((merge_quarantine parts).blocked ≡ any (λ p. p.blocked) parts)
      × IsDistinct (merge_quarantine parts).actions
      × IsDistinct (merge_quarantine parts).active_content_flags
unfolding merge_quarantine
merge_quarantine_lem parts = (
  merge_all-blocked clean parts,
  dedup_from-IsDistinct [] (merge_all clean parts).actions tt,
  dedup_from-IsDistinct [] (merge_all clean parts).active_content_flags tt,
)
