-- ===== src/Compiler/Ask/Sealed.antt =====
-- workflow_gen.py: what the compiler shows the model of a source.
use brain_flow.Prelude.{
  ℕ, zero, suc, ◌-◌, ◌≤◌, String, ◌≡◌, refl, true, false, [], ◌∷◌, ◌++◌, arith, length,
  length-append, if_ind,
}
use brain_flow.Prelude.Text.{Codes, codes, starts_with, is_infix, take_chars}
use brain_flow.Prelude.Dict.{Dict}
use brain_flow.Kernel.Delimit.{
  build_bounded_user_message, untrusted_open, untrusted_close, harmless_close, replace_close,
  delimit_untrusted, replace_close-IsInside, replace_close-same,
}
use brain_flow.Compiler.Packs.{Pack}
use brain_flow.Compiler.Ask.{user_payload}

starts_with-length : (s p : Codes) → starts_with s p ≡ true → length p ≤ length s
starts_with-length s [] h = omega arith
starts_with-length [] (p ∷ ps) h = absurd (ground arith)
starts_with-length (c ∷ s) (p ∷ ps) h = ground (arith, starts_with-length s ps (ground (arith, h)))

lengths : (length harmless_close ≡ 20) × (length untrusted_close ≡ 21)
lengths = (refl, refl)

-- What stands for a closing tag is no longer than the tag.
replace_close-length :
    (text : Codes) (skip : ℕ) → length (replace_close skip text) ≤ length text - skip
unfolding replace_close
replace_close-length [] skip = omega arith
replace_close-length (c ∷ text) (suc skip) = ground (arith, replace_close-length text skip)
replace_close-length (c ∷ text) zero =
    if_ind (λ (out : Codes). length out ≤ length (c ∷ text) - 0)
      (starts_with (c ∷ text) untrusted_close)
      (λ on. omega (
        arith,
        starts_with-length (c ∷ text) untrusted_close on,
        length-append harmless_close (replace_close 20 text),
        lengths.0,
        lengths.1,
        replace_close-length text 20,
      ))
      (λ _. omega (arith, replace_close-length text zero))

codes-take_chars : (n : ℕ) (s : String) → length (codes (take_chars n s)) ≤ n
codes-take_chars zero s = omega arith
codes-take_chars (suc n) String.[] = omega arith
codes-take_chars (suc n) (String.◌∷◌ c s) = omega (arith, codes-take_chars n s)

-- A text of at most `n` characters between the tags of the intake that holds no closing tag, and that is
-- the beginning of the source, unchanged, where that beginning holds none.
abbrev pub IsSealed : ℕ → String → Codes → Type 0
IsSealed n source evidence =
    (body : Codes) × (evidence
      ≡ untrusted_open (codes "intake") ++ 0x0a ∷ body ++ 0x0a ∷ untrusted_close)
    × (length body ≤ n)
    × (is_infix untrusted_close body ≡ false)
    × (is_infix untrusted_close (codes (take_chars n source)) ≡ false
        → body ≡ codes (take_chars n source))

cut-IsSealed :
    (n : ℕ) (source : String)
    → IsSealed n source (delimit_untrusted (codes "intake") (codes (take_chars n source)))
unfolding delimit_untrusted
cut-IsSealed n source =
    let text = codes (take_chars n source) in
    (
      replace_close zero text,
      refl,
      omega (arith, replace_close-length text zero, codes-take_chars n source),
      replace_close-IsInside text zero,
      replace_close-same text,
    )

-- The evidence that a model is shown is a body between the tags of the intake: in the compiler's payload
-- at most 6000 characters, and in the message of a stage at most 8000. The body holds no closing tag, and
-- it is the beginning of the source, unchanged, where that beginning holds no closing tag.
pub user_payload-IsSealed :
    (pack : Pack) (prompt source_text model stage : String) (extra : Dict String)
    → IsSealed 6000 source_text (user_payload pack prompt source_text model).untrusted_evidence
      × IsSealed 8000 source_text
          (build_bounded_user_message stage prompt source_text extra).untrusted_evidence
unfolding user_payload build_bounded_user_message
user_payload-IsSealed pack prompt source_text model stage extra =
    (cut-IsSealed 6000 source_text, cut-IsSealed 8000 source_text)
